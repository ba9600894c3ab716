-- ===== src/LightClient/Tests.antt =====
-- A client that is offered headers, one of them out of order.
use mermai_blockchain.Base.{ℕ, ◌≡◌, refl, List, [], ◌∷◌, length}
use mermai_blockchain.Crypto.Sample.{sample_crypto}
use mermai_blockchain.LightClient.{BlockHeader, new_client, sync_all}
use mermai_blockchain.LightClient.Heights.{IsSynced, sync_all-new_client-IsSynced}

abbrev header : ℕ → BlockHeader
header height = record {
  height = height;
  hash = [];
  prev_block_hash = [];
  merkle_root = [];
  timestamp = 0;
  validator_address = [];
  validator_public_key = [];
  validator_signature = [];
}

abbrev offered : List BlockHeader
offered = header 7 ∷ header 9 ∷ header 8 ∷ header 9 ∷ []

sync_all-length : length (sync_all sample_crypto new_client offered).headers ≡ 3
unfolding sync_all new_client
sync_all-length = refl

sync_all-new_client-IsSynced_example :
    IsSynced sample_crypto (sync_all sample_crypto new_client offered).headers
sync_all-new_client-IsSynced_example = sync_all-new_client-IsSynced sample_crypto offered

-- ===== src/LightClient/Heights.antt =====
-- The heights of a client's headers follow one another.
use mermai_blockchain.Base.{◌≡◌, true, List, [], ◌∷◌, ◌++◌, arith, Bool-cases, inl, inr}
use mermai_blockchain.Base.Key.{nat_key}
use mermai_blockchain.Base.Words.{add32}
use mermai_blockchain.Crypto.{Crypto}
use mermai_blockchain.LightClient.{
  BlockHeader, LightClient, new_client, tip, continues_tip, verify_header_signature, sync_header,
  sync_all,
}

-- Each header is one higher than the one before it, in 32 bits, and its signature passed.
unfoldable pub IsRun : Crypto → BlockHeader → List BlockHeader → Type 0
IsRun crypto previous [] = Unit
IsRun crypto previous (h ∷ headers) =
    (h.height ≡ add32 previous.height 1)
    × (verify_header_signature crypto h ≡ true)
    × IsRun crypto h headers

-- The first header may have any height.
unfoldable pub IsSynced : Crypto → List BlockHeader → Type 0
IsSynced crypto [] = Unit
IsSynced crypto (h ∷ headers) = (verify_header_signature crypto h ≡ true) × IsRun crypto h headers

IsRun-append :
    (crypto : Crypto) (previous : BlockHeader) (headers : List BlockHeader) (h : BlockHeader)
    → continues_tip h.height (previous ∷ headers) ≡ true
    → verify_header_signature crypto h ≡ true
    → IsRun crypto previous headers
    → IsRun crypto previous (headers ++ (h ∷ []))
unfolding IsRun continues_tip tip
IsRun-append crypto previous [] h c v r = (ground arith, v, tt)
IsRun-append crypto previous (g ∷ headers) h c v r =
    (r.0, r.1, IsRun-append crypto g headers h (ground arith) v r.2)

IsSynced-append :
    (crypto : Crypto) (headers : List BlockHeader) (h : BlockHeader)
    → continues_tip h.height headers ≡ true
    → verify_header_signature crypto h ≡ true
    → IsSynced crypto headers
    → IsSynced crypto (headers ++ (h ∷ []))
unfolding IsSynced IsRun
IsSynced-append crypto [] h c v s = (v, tt)
IsSynced-append crypto (g ∷ headers) h c v s = (s.0, IsRun-append crypto g headers h c v s.1)

sync_header-IsSynced :
    (crypto : Crypto) (h : BlockHeader) (c : LightClient)
    → IsSynced crypto c.headers
    → IsSynced crypto (sync_header crypto h c).0.headers
unfolding sync_header
sync_header-IsSynced crypto h c s = elim (Bool-cases (continues_tip h.height c.headers)) [
  | inr gap ↦ rw (gap, sync_header) s
  | inl next ↦ (elim (Bool-cases (verify_header_signature crypto h)) [
    | inr bad ↦ rw (next, bad, sync_header) s
    | inl good ↦ rw (next, good, sync_header) (IsSynced-append crypto c.headers h next good s)
  ])
]

sync_all-IsSynced :
    (crypto : Crypto) (c : LightClient) (offered : List BlockHeader)
    → IsSynced crypto c.headers
    → IsSynced crypto (sync_all crypto c offered).headers
unfolding sync_all
sync_all-IsSynced crypto c [] s = s
sync_all-IsSynced crypto c (h ∷ offered) s =
    sync_all-IsSynced crypto (sync_header crypto h c).0 offered (sync_header-IsSynced crypto h c s)

-- Whatever headers are offered to a new client, those it holds have heights that go up by one, in
-- 32 bits, from the first one's, and each passed the check of its signature.
pub sync_all-new_client-IsSynced :
    (crypto : Crypto) (offered : List BlockHeader)
    → IsSynced crypto (sync_all crypto new_client offered).headers
sync_all-new_client-IsSynced crypto offered =
    sync_all-IsSynced crypto new_client offered (unfold IsSynced new_client in tt)

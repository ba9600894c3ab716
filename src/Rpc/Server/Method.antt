-- ===== src/Rpc/Server/Method.antt =====
-- The names that `handle_request` compares the method with, in the order of its tests.
use mermai_blockchain.Base.{◌||◌, if◌then◌else◌}
use mermai_blockchain.Base.Key.{Bytes, bytes_key, ◌==◌}
use mermai_blockchain.Base.Text.{text}

pub data Method : Type 0 where
  block_number block_by_number block_by_hash finalized_block balance_of transaction_count : Method
  transaction_by_hash raw_transaction fee_suggestion metrics validator_registration : Method
  validator_info all_validators validator_weight vote_submission quorum_status : Method
  contract_deployment contract_code contract_call gas_estimate peer_count chain_id unknown : Method

unfoldable pub method_of : Bytes → Method
method_of method =
    if method == text "mrm_blockNumber" || method == text "eth_blockNumber"
    then block_number
    else if method == text "mrm_getBlockByNumber" || method == text "eth_getBlockByNumber"
    then block_by_number
    else if method == text "mrm_getBlockByHash" || method == text "eth_getBlockByHash"
    then block_by_hash
    else if method == text "mrm_getFinalizedBlock"
    then finalized_block
    else if method == text "mrm_getBalance" || method == text "eth_getBalance"
    then balance_of
    else if method == text "mrm_getTransactionCount" || method == text "eth_getTransactionCount"
    then transaction_count
    else if method == text "mrm_getTransaction"
        || (method == text "mrm_getTransactionByHash" || method == text "eth_getTransactionByHash")
    then transaction_by_hash
    else if method == text "mrm_sendRawTransaction"
        || (method == text "eth_sendRawTransaction" || method == text "mrm_sendTransaction")
    then raw_transaction
    else if method == text "mrm_suggestFee" || method == text "eth_gasPrice"
    then fee_suggestion
    else if method == text "mrm_getMetrics"
    then metrics
    else if method == text "mrm_registerValidator"
    then validator_registration
    else if method == text "mrm_getValidatorInfo"
    then validator_info
    else if method == text "mrm_getAllValidators"
    then all_validators
    else if method == text "mrm_getValidatorWeight"
    then validator_weight
    else if method == text "mrm_submitVote"
    then vote_submission
    else if method == text "mrm_getQuorumStatus"
    then quorum_status
    else if method == text "mrm_deployContract"
    then contract_deployment
    else if method == text "mrm_getContractCode" || method == text "eth_getCode"
    then contract_code
    else if method == text "mrm_callContract" || method == text "eth_call"
    then contract_call
    else if method == text "mrm_estimateGas" || method == text "eth_estimateGas"
    then gas_estimate
    else if method == text "mrm_peerCount" || method == text "net_peerCount"
    then peer_count
    else if method == text "mrm_chainId" || method == text "eth_chainId"
    then chain_id
    else unknown

-- ===== src/Lib.antt =====
-- A verification library for the C++ implementation of the MERMAI blockchain.
--
-- The program is a node: transactions spend outputs of earlier ones and are signed; a pool holds
-- those that wait; blocks carry transactions under a Merkle root and name the hash of the block
-- before them; validators lock stake, one of them may propose in each slot of ten seconds, and
-- their votes make blocks final; the blocks and the outputs they leave are kept in a database, and
-- peers send each other blocks, transactions and votes; contracts are compiled from a small
-- language and run by a virtual machine; a token contract, governance and multi-signature accounts
-- stand beside this, and a light client follows block headers only.
--
-- Which file models what (sources are given from the repository's root):
--   Base          numbers, lists, words of 32 and 64 bits, std::map and std::set
--   Crypto        what is taken from OpenSSL, as a parameter, and hexadecimal text
--   Floats        the C++ float operations, as a parameter
--   Wire          write_value, read_value, … of src/core/mermai_blockchain.cpp
--   Transaction   mermai_transaction of src/core/mermai_blockchain.cpp
--   Vote, Block   mermai_block_vote and mermai_block of the same file
--   Merkle        src/core/mermai_merkle.cpp, and the tree hash of src/db/mermai_db.cpp
--   Mempool       src/core/mermai_mempool.cpp
--   Rewards       mermai_reward_calculator of src/consensus/mermai_consensus.cpp
--   Staking       mermai_consensus_state of src/core/mermai_blockchain.cpp and
--                 mermai_time_weighted_pos of src/consensus/mermai_consensus.cpp
--   Proposal      mermai_proposal_validator of the latter file
--   Quorum        mermai_quorum_collector of the same file
--   Chain         mermai_blockchain of src/core/mermai_blockchain.cpp
--   Governance    src/consensus/mermai_governance.cpp
--   Multisig      src/core/mermai_multisig.cpp
--   LightClient   src/core/mermai_light_client.cpp
--   Token         src/vm/mermai_token.cpp
--   Vm            mermai_vm of src/vm/mermai_vm.cpp
--   Merlite       src/vm/merlite_compiler.cpp
--   Database      src/db/mermai_db.cpp
--   Network       src/network/mermai_network.cpp
--   Pubsub        src/rpc/mermai_pubsub.cpp
--   Node          src/mermai_main.cpp
--   Rpc           src/rpc/mermai_rpc.cpp
--
-- How they interact: Chain asks Block for hashes, Merkle for roots, Transaction for signatures and
-- Proposal for the right to propose; Proposal asks Staking for the proposer of the slot and
-- slashes it when it sees two blocks; Quorum asks Vote for signatures and Staking for stakes;
-- Staking credits what Rewards computes. The engine and the seen proposals that Chain changes
-- through a const_cast and a static map are part of its state. Network hands what a peer sends to
-- Chain, Database and Quorum; Database asks Transaction for signatures and moves the unspent
-- outputs of a block in one SQL transaction; Merlite emits the opcodes that Vm runs. Node puts the
-- parts together from what the database holds, and makes blocks; Rpc answers requests from all of
-- them, registers validators, takes votes and transactions, and runs contracts.
--
-- Parameters. OpenSSL is the record `Crypto`, float arithmetic the record `Floats`. SQLite is a
-- function that runs one statement; `Database.Ledger.IsSqlite` says what of its documented
-- behaviour is relied on, `Database.Ledger.EndsNoTransaction` what is assumed of one failure that
-- the code passes over, and `Database.Sample` has an instance. The header mermai_vm.hpp is not in
-- the repository: the codes of the opcodes and the prices of gas are the record `VmHeader`,
-- and the fields of a new context that the RPC server leaves are in `Rpc.Server.Machine`.
--
-- Conventions. A class is a record, a method a function from the state to the state and the
-- result; a refused call returns the state that the code leaves. An exception is an error of
-- `Wire.Result`. Strings and byte vectors are lists of numbers. A map is a list of entries in the
-- order of its keys. Unsigned integers are numbers with the wrap-around written out where the code
-- can reach it. The clock is an argument. A method that holds a mutex from its first line to its
-- last is one step.
--
-- Bounds and fuel. `Vote.to_decimal` has fuel for 20 digits, which 64-bit numbers do not exceed.
-- `Merkle.grow` has as many rounds as there are leaves, and each round halves the level.
-- `Merlite.Lexer.tokenize` has a round for each byte and `Merlite.Compile.compile` one for each token;
-- without enough they would give none. `Vm.Step.loop` has as many rounds as its caller says, and
-- tells a run that goes on from one that has returned. `Pubsub.hex_digits` has fuel for 16 digits.
-- `Rpc.Server.Reaction` tells a request that is answered from one whose run goes on after the rounds
-- of its machine.
-- All other loops are by structural recursion.
--
-- Not modelled: the assembler of the virtual machine and the disassembler of Merlite; the opening
-- and copying of database files; sockets and threads of the network and of the RPC server; the
-- discovery of peers; biometric authentication and the self-aware controller; the command line and
-- all console output, which are input and output around the parts above.
pub mod Base
pub mod Token
pub mod Wire
pub mod Crypto
pub mod Transaction
pub mod Vote
pub mod Block
pub mod Merkle
pub mod Mempool
pub mod Rewards
pub mod Floats
pub mod Staking
pub mod LightClient
pub mod Multisig
pub mod Governance
pub mod Chain
pub mod Proposal
pub mod Quorum
pub mod Vm
pub mod Database
pub mod Network
pub mod Merlite
pub mod Pubsub
pub mod Node
pub mod Rpc

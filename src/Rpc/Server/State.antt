-- ===== src/Rpc/Server/State.antt =====
-- The state after a request and what the request returns.
use mermai_blockchain.Base.{ℕ, Option, none, some, List, [], ◌∷◌}
use mermai_blockchain.Base.Key.{Bytes, bytes_key, nat_key}
use mermai_blockchain.Staking.{TimeWeightedPos}
use mermai_blockchain.Network.{P2pMessage}
use mermai_blockchain.Network.Node.{NodeState}
use mermai_blockchain.Rpc.Server.{database_unavailable, Reaction, responds}

-- The state after a request, what it returns, and what is sent to every peer.
pub record Served (F Db : Type 0) : Type 0 where
  pub node : NodeState F Db
  pub reaction : Reaction
  pub sent : List P2pMessage

module _ {F Db : Type 0} where
  abbrev pub replies : NodeState F Db → Bytes → Served F Db
  replies node response = record { node = node; reaction = responds response; sent = [] }

  abbrev pub engine_of : NodeState F Db → Option (TimeWeightedPos F)
  engine_of node = elim node.blockchain [ none ↦ none | some s ↦ s.consensus_engine ]

  -- A call of the database, by its new state and the response, if there is a database.
  abbrev pub asks : NodeState F Db → (Option Db → Bytes × Option Db) → Served F Db
  asks node query = elim node.database [
    | none ↦ replies node database_unavailable
    | some db ↦ replies (record node { database = some (query db).1 }) (query db).0
  ]

-- The message for the peers, if there is a network.
abbrev pub to_peers : Option ℕ → P2pMessage → List P2pMessage
to_peers none msg = []
to_peers (some peers) msg = msg ∷ []

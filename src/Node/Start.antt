-- ===== src/Node/Start.antt =====
-- The chain that a node starts with: `initialize` of src/mermai_main.cpp.
use mermai_blockchain.Base.{
  ℕ, ◌≡◌, ◌≢◌, subst, Bool, Option, none, some, ◌∷◌, arith, ltb, if◌then◌else◌, Bool-cases,
  Option-cases, inl, inr,
}
use mermai_blockchain.Crypto.{Crypto}
use mermai_blockchain.Floats.{Floats}
use mermai_blockchain.Staking.{new_pos}
use mermai_blockchain.Chain.{
  Blockchain, new_blockchain, set_consensus_engine, get_block, replace_chain_if_longer,
}
use mermai_blockchain.Chain.Linked.{new_blockchain-IsWellFormed}
use mermai_blockchain.Chain.Links.{IsWellFormed}
use mermai_blockchain.Database.{Statement, Reply}
use mermai_blockchain.Database.Records.{get_latest_block_height}
use mermai_blockchain.Database.Validators.{get_all_validators}
use mermai_blockchain.Network.Node.{NodeState}
use mermai_blockchain.Network.Node.Growth.{replace-Grows}
use mermai_blockchain.Node.{restore_validators, load_blocks, restore_chain, initialize}

module _ (floats : Floats) (crypto : Crypto) {Db : Type 0} (run : Statement → Db → Reply × Db) where
  no_chain : {t : Blockchain floats.Float} → none ≢ some t
  no_chain e = cc

  restore_chain-IsWellFormed :
      (now : ℕ) (s : Blockchain floats.Float) (db : Option Db) (restored : Blockchain floats.Float)
      → IsWellFormed floats crypto s.chain
      → (restore_chain floats crypto run now s db).0 ≡ some restored
      → IsWellFormed floats crypto restored.chain
  unfolding restore_chain
  restore_chain-IsWellFormed now s db restored w h =
      let stored_height = get_latest_block_height run db in
      let loaded = load_blocks floats crypto run 1 stored_height.0 stored_height.1 in
      elim (Bool-cases (ltb 0 stored_height.0)) [
        | inr fresh ↦
            let same : s ≡ restored = ground (arith, fresh) in
            subst (λ (t : Blockchain floats.Float). IsWellFormed floats crypto t.chain) same w
        | inl kept ↦ (elim (Option-cases loaded.0) [
          | inl missing ↦ absurd (no_chain (rw (kept, missing, restore_chain) at h))
          | inr (blocks, read) ↦ (elim (Option-cases (get_block floats crypto 0 s)) [
            | inl missing ↦ absurd (no_chain (rw (kept, read, missing, restore_chain) at h))
            | inr (first, origin) ↦
                let r = replace_chain_if_longer floats crypto now (first ∷ blocks) s in
                let grown = replace-Grows floats crypto run now (first ∷ blocks) s w in
                let result : (if r.1 then some r.0 else none) ≡ some restored =
                  rw (kept, read, origin, restore_chain) at h in
                (elim (Bool-cases r.1) [
                  | inl replaced ↦
                      let same : r.0 ≡ restored = ground (arith, result) in
                      subst (λ (t : Blockchain floats.Float). IsWellFormed floats crypto t.chain)
                        same grown.0
                  | inr refused ↦ absurd (no_chain (rw refused at result))
                ])
          ])
        ])
      ]

  no_node : {node : NodeState floats.Float Db} → none ≢ some node
  no_node e = cc

  pub initialize-IsWellFormed :
      (now : ℕ) (db : Option (Option Db)) (listening serving : Bool)
      (node : NodeState floats.Float Db)
      → initialize floats crypto run now db listening serving ≡ some node
      → (s : Blockchain floats.Float) × (node.blockchain ≡ some s)
        × IsWellFormed floats crypto s.chain
  unfolding initialize
  initialize-IsWellFormed now none listening serving node h = cc
  initialize-IsWellFormed now (some db) listening serving node h =
      let stored = get_all_validators floats run db in
      elim (Option-cases (restore_validators floats crypto run stored.0 (new_pos floats))) [
        | inl refused ↦ absurd (no_node (rw (refused, initialize) at h))
        | inr (engine, restored_engine) ↦
            let start =
              set_consensus_engine floats crypto (some engine)
                (new_blockchain floats crypto none) in
            let restored = restore_chain floats crypto run now start stored.1 in
            let formed : IsWellFormed floats crypto start.chain =
              unfold set_consensus_engine in new_blockchain-IsWellFormed floats crypto none in
            (elim (Option-cases restored.0) [
              | inl refused ↦ absurd (no_node (rw (restored_engine, refused, initialize) at h))
              | inr (s, made) ↦
                  let started = rw (restored_engine, made, initialize) at h in
                  (
                    s,
                    ground (arith, started),
                    restore_chain-IsWellFormed now start stored.1 s formed made,
                  )
            ])
      ]

-- ===== src/Network/Node/Growth.antt =====
-- How the chain of a node grows when it takes blocks from its peers.
use mermai_blockchain.Base.{
  ℕ, ◌≤◌, ◌≡◌, sym, subst, Bool, false, Option, none, some, List, [], ◌∷◌, arith, length,
  length-append, if◌then◌else◌, Bool-cases, inl, inr,
}
use mermai_blockchain.Base.Key.{nat_key}
use mermai_blockchain.Crypto.{Crypto}
use mermai_blockchain.Floats.{Floats}
use mermai_blockchain.Block.{Block}
use mermai_blockchain.Chain.{Blockchain, can_add_block, add_block, replace_chain_if_longer}
use mermai_blockchain.Chain.Linked.{
  can_add_block_chain, add_block_cases, add_block-IsWellFormed, replace_chain_if_longer_lem,
}
use mermai_blockchain.Chain.Links.{IsWellFormed}
use mermai_blockchain.Database.{Statement, Reply}
use mermai_blockchain.Database.Store.{apply_block}
use mermai_blockchain.Network.Node.{accept_block, accept_blocks}

module _ (floats : Floats) (crypto : Crypto) {Db : Type 0} (run : Statement → Db → Reply × Db) where
  -- The chain stays well formed and does not become shorter.
  abbrev pub Grows : Blockchain floats.Float → Blockchain floats.Float → Type 0
  Grows s after = IsWellFormed floats crypto after.chain × (length s.chain ≤ length after.chain)

  Grows-step :
      (s middle after : Blockchain floats.Float)
      → Grows s middle
      → Grows middle after
      → Grows s after
  Grows-step s middle after g h = (h.0, omega (arith, g.1, h.1))

  same-Grows :
      (s after : Blockchain floats.Float)
      → IsWellFormed floats crypto s.chain
      → after.chain ≡ s.chain
      → Grows s after
  same-Grows s after w e =
      (subst (λ chain. IsWellFormed floats crypto chain) (sym e) w, rw e (omega arith))

  add_block-Grows :
      (now : ℕ) (b : Block) (s : Blockchain floats.Float)
      → IsWellFormed floats crypto s.chain
      → Grows s (add_block floats crypto now b s).0
  add_block-Grows now b s w = (
    add_block-IsWellFormed floats crypto now b s w,
    elim (add_block_cases floats crypto now b s w.first w.rest w.made_of) [
      | inl kept ↦ rw (kept, w.made_of) (omega arith)
      | inr (grown, _, _) ↦ rw (grown, w.made_of) (omega (arith, length-append w.rest (b ∷ [])))
    ],
  )

  pub accept_block-Grows :
      (now : ℕ) (b : Block) (s : Blockchain floats.Float) (database : Option (Option Db))
      → IsWellFormed floats crypto s.chain
      → Grows s (accept_block floats crypto run now b s database).0.0
  unfolding accept_block
  accept_block-Grows now b s database w =
      let checked = can_add_block floats crypto now b s in
      let first = same-Grows s checked.0 w (can_add_block_chain floats crypto now b s) in
      let second =
        Grows-step s checked.0 (add_block floats crypto now b checked.0).0 first
          (add_block-Grows now b checked.0 first.0) in
      elim (Bool-cases checked.1) [
        | inr refused ↦ rw (refused, accept_block) first
        | inl accepted ↦ rw (accepted, accept_block) (after database first second)
      ]
    where
      after :
          (database : Option (Option Db))
          → Grows s (can_add_block floats crypto now b s).0
          → Grows s (add_block floats crypto now b (can_add_block floats crypto now b s).0).0
          → Grows s
              (elim database as (λ _. (Blockchain floats.Float × Option (Option Db)) × Bool) [
                | none ↦ (
                  ((add_block floats crypto now b (can_add_block floats crypto now b s).0).0, none),
                  (add_block floats crypto now b (can_add_block floats crypto now b s).0).1,
                )
                | some db ↦
                    if (apply_block run crypto now b db).0
                    then (
                      (
                        (add_block floats crypto now b (can_add_block floats crypto now b s).0).0,
                        some (apply_block run crypto now b db).1,
                      ),
                      (add_block floats crypto now b (can_add_block floats crypto now b s).0).1,
                    )
                    else (
                      (
                        (can_add_block floats crypto now b s).0,
                        some (apply_block run crypto now b db).1,
                      ),
                      false,
                    )
              ]).0.0
      after none f g = g
      after (some db) f g = elim (Bool-cases (apply_block run crypto now b db).0) [
        | inl applied ↦ rw applied g
        | inr refused ↦ rw refused f
      ]

  pub accept_blocks-Grows :
      (now : ℕ) (blocks : List Block) (s : Blockchain floats.Float) (database : Option (Option Db))
      → IsWellFormed floats crypto s.chain
      → Grows s (accept_blocks floats crypto run now blocks s database).0.0
  unfolding accept_blocks
  accept_blocks-Grows now [] s database w = (w, omega arith)
  accept_blocks-Grows now (b ∷ blocks) s database w =
      let r = accept_block floats crypto run now b s database in
      let first = accept_block-Grows now b s database w in
      elim (Bool-cases r.1) [
        | inr refused ↦ rw refused first
        | inl accepted ↦ rw accepted (
            Grows-step s r.0.0 (accept_blocks floats crypto run now blocks r.0.0 r.0.1).0.0 first
              (accept_blocks-Grows now blocks r.0.0 r.0.1 first.0))
      ]

  -- What is known of a node without a blockchain is that it gets none.
  abbrev pub GrowsIn : Option (Blockchain floats.Float) → Option (Blockchain floats.Float) → Type 0
  GrowsIn none none = Unit
  GrowsIn none (some after) = ⊥
  GrowsIn (some s) none = ⊥
  GrowsIn (some s) (some after) = Grows s after

  abbrev pub IsSound : Option (Blockchain floats.Float) → Type 0
  IsSound none = Unit
  IsSound (some s) = IsWellFormed floats crypto s.chain

  pub kept-GrowsIn : (b : Option (Blockchain floats.Float)) → IsSound b → GrowsIn b b
  kept-GrowsIn none w = tt
  kept-GrowsIn (some s) w = (w, omega arith)

  pub replace-Grows :
      (now : ℕ) (candidate : List Block) (s : Blockchain floats.Float)
      → IsWellFormed floats crypto s.chain
      → Grows s (replace_chain_if_longer floats crypto now candidate s).0
  replace-Grows now candidate s w =
      let after = (replace_chain_if_longer floats crypto now candidate s).0 in
      elim (replace_chain_if_longer_lem floats crypto now candidate s) [
        | inl (_, kept) ↦ same-Grows s after w kept
        | inr (_, replaced, longer, formed) ↦ (
          subst (λ chain. IsWellFormed floats crypto chain) (sym replaced) formed,
          rw replaced (omega (arith, longer)),
        )
      ]

-- ===== src/Chain/Linked.antt =====
-- The links of the chain by hashes, through the operations of src/core/mermai_blockchain.cpp.
use mermai_blockchain.Base.{
  ℕ, suc, ◌<◌, ◌≡◌, refl, sym, subst, true, false, Option, List, [], ◌∷◌, ◌++◌, arith, leb, length,
  Bool-cases, inl, inr, ◌⊎◌,
}
use mermai_blockchain.Base.Key.{bytes_key, nat_key, bytes_beq_iff, bytes_beq_refl}
use mermai_blockchain.Crypto.{Crypto}
use mermai_blockchain.Floats.{Floats}
use mermai_blockchain.Block.{Block, new_block}
use mermai_blockchain.Staking.{TimeWeightedPos}
use mermai_blockchain.Chain.{
  Blockchain, genesis_prev, genesis, last_block, valid_body, proposal_accepted, follows,
  can_add_block, add_block, valid_first, validate_rest, replace_chain_if_longer, new_blockchain,
  set_consensus_engine, linked, is_valid, Call, adds, replaces, sets_engine, apply, run,
}
use mermai_blockchain.Chain.Links.{
  IsNext, IsLinked, IsWellFormed, IsLinked-append, follows-IsNext, validate_rest-IsLinked,
}

module _ (floats : Floats) (crypto : Crypto) where
  -- The checks of a proposal leave the chain as it is.
  proposal_accepted_chain :
      (b : Block) (s : Blockchain floats.Float)
      → (proposal_accepted floats crypto b s).0.chain ≡ s.chain
  unfolding proposal_accepted
  proposal_accepted_chain b s = ground arith

  validate_rest_chain :
      (now index : ℕ) (previous : Block) (blocks : List Block) (s : Blockchain floats.Float)
      → (validate_rest floats crypto now index previous blocks s).0.chain ≡ s.chain
  unfolding validate_rest
  validate_rest_chain now index previous [] s = refl
  validate_rest_chain now index previous (b ∷ blocks) s = ground (
    arith,
    validate_rest_chain now (suc index) b blocks (proposal_accepted floats crypto b s).0,
    proposal_accepted_chain b s,
  )

  pub can_add_block_chain :
      (now : ℕ) (b : Block) (s : Blockchain floats.Float)
      → (can_add_block floats crypto now b s).0.chain ≡ s.chain
  unfolding can_add_block
  can_add_block_chain now b s = ground (arith, proposal_accepted_chain b s)

  can_add_block_accepts :
      (now : ℕ) (b : Block) (s : Blockchain floats.Float) (first : Block) (rest : List Block)
      → s.chain ≡ first ∷ rest
      → (can_add_block floats crypto now b s).1 ≡ true
      → (follows floats crypto now (suc (length rest)) (last_block first rest) b ≡ true)
        × (valid_body floats crypto now b ≡ true)
  unfolding can_add_block
  can_add_block_accepts now b s first rest e h = (ground arith, ground arith)

  pub add_block_cases :
      (now : ℕ) (b : Block) (s : Blockchain floats.Float) (first : Block) (rest : List Block)
      → s.chain ≡ first ∷ rest
      → ((add_block floats crypto now b s).0.chain ≡ first ∷ rest)
        ⊎ ((add_block floats crypto now b s).0.chain ≡ first ∷ (rest ++ (b ∷ [])))
          × (follows floats crypto now (suc (length rest)) (last_block first rest) b ≡ true)
          × (valid_body floats crypto now b ≡ true)
  unfolding add_block
  add_block_cases now b s first rest e =
      let same = can_add_block_chain now b s in
      elim (Bool-cases (can_add_block floats crypto now b s).1) [
        | inl accepted ↦ inr (
          ground (arith, same),
          (can_add_block_accepts now b s first rest e accepted).0,
          (can_add_block_accepts now b s first rest e accepted).1,
        )
        | inr refused ↦ inl (ground (arith, same))
      ]

  pub add_block-IsWellFormed :
      (now : ℕ) (b : Block) (s : Blockchain floats.Float)
      → IsWellFormed floats crypto s.chain
      → IsWellFormed floats crypto (add_block floats crypto now b s).0.chain
  add_block-IsWellFormed now b s w = elim (add_block_cases now b s w.first w.rest w.made_of) [
    | inl kept ↦ record {
      first = w.first;
      rest = w.rest;
      made_of = kept;
      origin = w.origin;
      links = w.links;
    }
    | inr (grown, f, v) ↦ record {
      first = w.first;
      rest = w.rest ++ (b ∷ []);
      made_of = grown;
      origin = w.origin;
      links = IsLinked-append floats crypto 1 w.first w.rest b w.links (
          subst (λ i. IsNext floats crypto i (last_block w.first w.rest) b) (omega arith)
            (follows-IsNext floats crypto now (suc (length w.rest)) (last_block w.first w.rest) b f
              v));
    }
  ]

  replaced-IsWellFormed :
      (now : ℕ) (first : Block) (blocks : List Block) (s : Blockchain floats.Float)
      → valid_first floats crypto now first ≡ true
      → (validate_rest floats crypto now 1 first blocks s).1 ≡ true
      → IsWellFormed floats crypto (first ∷ blocks)
  unfolding valid_first
  replaced-IsWellFormed now first blocks s f r = record {
    first = first;
    rest = blocks;
    made_of = refl;
    origin = (ground arith, ground (arith, bytes_beq_iff first.prev_block_hash genesis_prev));
    links = validate_rest-IsLinked floats crypto now 1 first blocks s r;
  }

  -- `replace_chain_if_longer` either returns false and keeps the chain, or returns true, and then
  -- the candidate is the chain: it is strictly longer than the old one and well formed.
  pub replace_chain_if_longer_lem :
      (now : ℕ) (candidate : List Block) (s : Blockchain floats.Float)
      → ((replace_chain_if_longer floats crypto now candidate s).1 ≡ false)
          × ((replace_chain_if_longer floats crypto now candidate s).0.chain ≡ s.chain)
        ⊎ ((replace_chain_if_longer floats crypto now candidate s).1 ≡ true)
          × ((replace_chain_if_longer floats crypto now candidate s).0.chain ≡ candidate)
          × (length s.chain < length candidate)
          × IsWellFormed floats crypto candidate
  unfolding replace_chain_if_longer
  replace_chain_if_longer_lem now [] s = inl (refl, refl)
  replace_chain_if_longer_lem now (first ∷ blocks) s =
      let same = validate_rest_chain now 1 first blocks s in
      elim (Bool-cases (leb (length (first ∷ blocks)) (length s.chain))) [
        | inl shorter ↦ inl (ground arith, ground arith)
        | inr longer ↦ (elim (Bool-cases (valid_first floats crypto now first)) [
          | inr bad ↦ inl (ground arith, ground arith)
          | inl good ↦ (elim (Bool-cases (validate_rest floats crypto now 1 first blocks s).1) [
            | inr broken ↦ inl (ground arith, ground (arith, same))
            | inl linked ↦ inr (
              ground arith,
              ground arith,
              ground arith,
              replaced-IsWellFormed now first blocks s good linked,
            )
          ])
        ])
      ]

  apply-IsWellFormed :
      (s : Blockchain floats.Float) (c : Call floats crypto)
      → IsWellFormed floats crypto s.chain
      → IsWellFormed floats crypto (apply floats crypto s c).chain
  unfolding apply
  apply-IsWellFormed s (adds now b) w = add_block-IsWellFormed now b s w
  apply-IsWellFormed s (replaces now candidate) w =
      elim (replace_chain_if_longer_lem now candidate s) [
        | inl (_, kept) ↦ subst (λ c. IsWellFormed floats crypto c) (sym kept) w
        | inr (_, replaced, _, v) ↦ subst (λ c. IsWellFormed floats crypto c) (sym replaced) v
      ]
  apply-IsWellFormed s (sets_engine engine) w = unfold set_consensus_engine in w

  run-IsWellFormed :
      (s : Blockchain floats.Float) (cs : List (Call floats crypto))
      → IsWellFormed floats crypto s.chain
      → IsWellFormed floats crypto (run floats crypto s cs).chain
  unfolding run
  run-IsWellFormed s [] w = w
  run-IsWellFormed s (c ∷ cs) w =
      run-IsWellFormed (apply floats crypto s c) cs (apply-IsWellFormed s c w)

  linked-eq-true :
      (index : ℕ) (previous : Block) (blocks : List Block)
      → IsLinked floats crypto index previous blocks
      → linked floats crypto previous blocks ≡ true
  unfolding linked IsLinked
  linked-eq-true index previous [] l = refl
  linked-eq-true index previous (b ∷ blocks) l = ground (
    arith,
    l.0.link,
    l.0.staked,
    bytes_beq_refl b.prev_block_hash,
    linked-eq-true (suc index) b blocks l.1,
  )

  is_valid-eq-true :
      (s : Blockchain floats.Float)
      → IsWellFormed floats crypto s.chain
      → is_valid floats crypto s ≡ true
  unfolding is_valid
  is_valid-eq-true s w = rw w.made_of (linked-eq-true 1 w.first w.rest w.links)

  pub new_blockchain-IsWellFormed :
      (engine : Option (TimeWeightedPos floats.Float))
      → IsWellFormed floats crypto (new_blockchain floats crypto engine).chain
  unfolding new_blockchain IsLinked new_block
  new_blockchain-IsWellFormed engine = record {
    first = genesis;
    rest = [];
    made_of = refl;
    origin = (refl, refl);
    links = tt;
  }

  -- After any sequence of calls on a new chain, whatever blocks and candidate chains they offer,
  -- the chain is well formed: it starts at a block of height 0 without a predecessor, and each
  -- later block has its position as its height modulo 2^32, names the hash of the block before
  -- it, is not older than that, has a staked validator, and a body whose checks passed. So
  -- `is_valid` returns true.
  pub run-new_blockchain-IsWellFormed :
      (engine : Option (TimeWeightedPos floats.Float)) (cs : List (Call floats crypto))
      → IsWellFormed floats crypto
          (run floats crypto (new_blockchain floats crypto engine) cs).chain
        × (is_valid floats crypto (run floats crypto (new_blockchain floats crypto engine) cs)
            ≡ true)
  run-new_blockchain-IsWellFormed engine cs =
      let s = run floats crypto (new_blockchain floats crypto engine) cs in
      let w =
        run-IsWellFormed (new_blockchain floats crypto engine) cs
          (new_blockchain-IsWellFormed engine) in
      (w, is_valid-eq-true s w)

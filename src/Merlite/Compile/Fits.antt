-- ===== src/Merlite/Compile/Fits.antt =====
-- What the compiler keeps between its rounds: distinct slots, and room for the names to come.
use mermai_blockchain.Base.{
  ℕ, zero, suc, ◌+◌, ◌≤◌, ◌<◌, ◌≡◌, subst, sym, ◌∙◌, Bool, true, false, some, List, arith, length,
  drop, length-drop, if◌then◌else◌, Bool-cases, inl, inr,
}
use mermai_blockchain.Base.Key.{Bytes, bytes_key, nat_key, ◌==◌, ==_sound}
use mermai_blockchain.Base.Map.{Map, find, insert, find-insert}
use mermai_blockchain.Merlite.{Token}
use mermai_blockchain.Merlite.Reader.{state_type}
use mermai_blockchain.Merlite.Compile.{Emission, Round, goes_on, throws}
use mermai_blockchain.Merlite.Compile.Lengths.{length-skip_brackets}

-- Each name in the layout has a slot below the next one, and no two have the same.
pub record HasDistinctSlots (layout : Map Bytes ℕ) (next_slot : ℕ) : Type 0 where
  pub below : (name : Bytes) (slot : ℕ) → find name layout ≡ some slot → slot < next_slot
  pub distinct :
      (name other : Bytes) (slot : ℕ)
      → find name layout ≡ some slot
      → find other layout ≡ some slot
      → name ≡ other

pub insert-HasDistinctSlots :
    (name : Bytes) (layout : Map Bytes ℕ) (next_slot : ℕ)
    → HasDistinctSlots layout next_slot
    → HasDistinctSlots (insert name next_slot layout) (next_slot + 1)
insert-HasDistinctSlots name layout next_slot w = record {
  below = λ other slot e.
      ground (arith, find-insert other name next_slot layout, w.below other slot, e);
  distinct = λ a b slot e f.
      let read_a = find-insert a name next_slot layout in
      let read_b = find-insert b name next_slot layout in
      elim (Bool-cases (a == name)) [
        | inl same_a ↦ (elim (Bool-cases (b == name)) [
          | inl same_b ↦ ==_sound a name same_a ∙ sym (==_sound b name same_b)
          | inr other_b ↦
              let low = w.below b slot (rw (read_b, other_b) at f) in
              let fresh : some next_slot ≡ some slot = rw (read_a, same_a) at e in
              ground (arith, low, fresh)
        ])
        | inr other_a ↦ (elim (Bool-cases (b == name)) [
          | inl same_b ↦
              let low = w.below a slot (rw (read_a, other_a) at e) in
              let fresh : some next_slot ≡ some slot = rw (read_b, same_b) at f in
              ground (arith, low, fresh)
          | inr other_b ↦
              w.distinct a b slot (rw (read_a, other_a) at e) (rw (read_b, other_b) at f)
        ])
      ];
}

-- What holds of the tokens left and the emission, in a source of `size` tokens.
pub record Fits (size : ℕ) (tokens : List Token) (e : Emission) : Type 0 where
  pub slots : HasDistinctSlots e.storage_map e.next_slot
  pub room : e.next_slot + length tokens ≤ size

-- A round leaves at most `bound` tokens, or one more if it ends its loop.
abbrev pub Fine : ℕ → ℕ → Round → Type 0
Fine size bound (throws e) = Unit
Fine size bound (goes_on zero tokens e) = Fits size tokens e × (length tokens ≤ suc bound)
Fine size bound (goes_on (suc depth) tokens e) = Fits size tokens e × (length tokens ≤ bound)

pub if-Fine :
    (size bound : ℕ) (test : Bool) (r s : Round)
    → Fine size bound r
    → Fine size bound s
    → Fine size bound (if test then r else s)
if-Fine size bound true r s h k = h
if-Fine size bound false r s h k = k

-- Fewer tokens, and what is emitted has the same slots.
pub shorter-Fits :
    (size : ℕ) (tokens fewer : List Token) (e next : Emission)
    → Fits size tokens e
    → length fewer ≤ length tokens
    → next.storage_map ≡ e.storage_map
    → next.next_slot ≡ e.next_slot
    → Fits size fewer next
shorter-Fits size tokens fewer e next w h s n = record {
  slots =
      subst (λ layout. HasDistinctSlots layout next.next_slot) (sym s)
        (subst (λ k. HasDistinctSlots e.storage_map k) (sym n) w.slots);
  room = omega (arith, w.room, h, n);
}

pub length-state_type : (tokens : List Token) → length (state_type tokens) ≤ length tokens
unfolding state_type
length-state_type tokens =
    ground (arith, length-skip_brackets (drop 1 tokens), length-drop 1 tokens)

-- ===== src/BondServer/Reorder/Stored.antt =====
-- A packet in its slot: what is held is what was held, with one more.
use tamizdat.BondServer.Reorder.{PacketReorder, bond_reorder_window}
use tamizdat.BondServer.Reorder.Held.{held, IsOrderly, value_of, count-set-some}
use tamizdat.Prelude.{
  ℕ, Option, none, some, get_or, arith, ◌≡◌, if◌then◌else◌, set, ◌≤◌, ◌%◌, ◌==◌, ◌+◌, ◌<◌, ap, ◌≢◌,
  ◌^◌, sym, get_or-set_ne, length-set, ◌∙◌, get_or-set_self, false, refl,
}
use native.Mathlib.Decide.{ℕ_discrete}

module _ {A : Type 0} where
  -- The packets `h` with one more.
  abbrev pub with_packet : ℕ → A → (ℕ → Option A) → ℕ → Option A
  with_packet seq p h k = if k == seq then some p else h k

  -- The packet in its slot.
  unfoldable pub stored : ℕ → A → PacketReorder A → PacketReorder A
  stored seq p r = record r {
    slots = set r.slots (seq % bond_reorder_window) (some (seq, p));
    buffered = r.buffered + 1;
  }

  pub stored-IsOrderly :
      (seq : ℕ) (p : A) (r : PacketReorder A)
      → IsOrderly r
      → r.next ≤ seq
      → seq < r.next + 256
      → seq + 1 < 2 ^ 64
      → get_or r.slots (seq % 256) none ≡ none
      → IsOrderly (stored seq p r)
  unfolding stored
  stored-IsOrderly seq p r v low high fit e = record {
    size = length-set r.slots (seq % 256) (some (seq, p)) ∙ v.size;
    started = v.started;
    fits = v.fits;
    filled = λ i k q f. elim (ℕ_discrete (seq % 256) i) [
      | yes same ↦
          let here : get_or (set r.slots (seq % 256) (some (seq, p))) (seq % 256) none
              ≡ some (seq, p) =
            get_or-set_self r.slots (seq % 256) (some (seq, p)) none (omega (arith, v.size)) in
          let number : k ≡ seq = ground arith in
          (
            omega (arith, number, same),
            omega (arith, number),
            omega (arith, number),
            omega (arith, number),
          )
      | no other ↦
          v.filled i k q (sym (get_or-set_ne r.slots (seq % 256) i (some (seq, p)) none other) ∙ f)
    ];
    counted =
        omega
          (arith, v.counted, count-set-some r.slots (seq % 256) (seq, p) e (omega (arith, v.size)));
  }

  stored_same :
      (seq : ℕ) (p : A) (r : PacketReorder A) (k : ℕ)
      → IsOrderly r
      → seq % 256 ≡ k % 256
      → get_or (stored seq p r).slots (k % 256) none ≡ some (seq, p)
  unfolding stored
  stored_same seq p r k v same =
      ap (λ (i : ℕ). get_or (set r.slots (seq % 256) (some (seq, p))) i none) (sym same)
      ∙ get_or-set_self r.slots (seq % 256) (some (seq, p)) none (omega (arith, v.size))

  stored_other :
      (seq : ℕ) (p : A) (r : PacketReorder A) (k : ℕ)
      → seq % 256 ≢ k % 256
      → get_or (stored seq p r).slots (k % 256) none ≡ get_or r.slots (k % 256) none
  unfolding stored
  stored_other seq p r k other =
      get_or-set_ne r.slots (seq % 256) (k % 256) (some (seq, p)) none other

  pub stored-held :
      (seq : ℕ) (p : A) (r : PacketReorder A) (k : ℕ)
      → IsOrderly r
      → get_or r.slots (seq % 256) none ≡ none
      → held (stored seq p r) k ≡ with_packet seq p (held r) k
  unfolding held value_of
  stored-held seq p r k v e = elim (ℕ_discrete (seq % 256) (k % 256)) [
    | yes same ↦
        let there = stored_same seq p r k v same in
        let before : get_or r.slots (k % 256) none ≡ none =
          ap (λ (i : ℕ). get_or r.slots i none) (sym same) ∙ e in
        rw (there, value_of, before) (ground arith)
    | no other ↦
        let there = stored_other seq p r k other in
        let differs : (k == seq) ≡ false = ground arith in rw (there, differs) refl
  ]

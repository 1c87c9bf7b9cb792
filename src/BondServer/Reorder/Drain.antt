-- ===== src/BondServer/Reorder/Drain.antt =====
-- `drain` hands on the run of packets from the expected number on.
use tamizdat.BondServer.Reorder.{PacketReorder, bond_reorder_window, drain, drain_all}
use tamizdat.BondServer.Reorder.Held.{
  value_of, held, held_slot, slot_number, then-Hands, count, IsOrderly, IsWaiting, collect,
  cons_some, Releases, count-set-none, count_le_length,
}
use tamizdat.Prelude.{
  ℕ, List, Option, none, some, ◌∷◌, [], get_or, set, ◌==◌, ◌%◌, ◌^◌, ◌+◌, ◌-◌, suc, zero, true,
  false, arith, ◌≡◌, ◌≤◌, ◌<◌, ◌≢◌, refl, sym, ap, ◌∙◌, Option-cases, inl, inr, get_or-set_self,
  get_or-set_ne, length-set,
}
use native.Mathlib.Decide.{ℕ_discrete}

module _ {A : Type 0} where
  pub record Drained (r : PacketReorder A) (result : PacketReorder A × List A) : Type 0 where
    pub orderly : IsOrderly result.0
    pub waiting : IsWaiting result.0
    pub releases : Releases r result
    pub fewer : count result.0.slots ≤ count r.slots
    pub reach :
        (b : ℕ)
        → r.next ≤ b
        → ((i seq : ℕ) (p : A) → get_or r.slots i none ≡ some (seq, p) → seq < b)
        → result.0.next ≤ b
    pub progress :
        get_or r.slots (r.next % bond_reorder_window) none ≢ none
        → count result.0.slots < count r.slots

  -- The state behind the packet of the expected number.
  abbrev taken : PacketReorder A → PacketReorder A
  taken r = record r {
    slots = set r.slots (r.next % bond_reorder_window) none;
    buffered = r.buffered - 1;
    next = (r.next + 1) % 2 ^ 64;
  }

  taken_slot :
      (r : PacketReorder A) (i : ℕ) (x : ℕ × A)
      → IsOrderly r
      → get_or (taken r).slots i none ≡ some x
      → (r.next % 256 ≢ i) × (get_or r.slots i none ≡ some x)
  taken_slot r i x v f = elim (ℕ_discrete (r.next % 256) i) [
    | yes same ↦
        let gone : get_or (set r.slots (r.next % 256) none) (r.next % 256) none ≡ none =
          get_or-set_self r.slots (r.next % 256) none none (omega (arith, v.size)) in
        absurd (cc)
    | no other ↦ (other, sym (get_or-set_ne r.slots (r.next % 256) i none none other) ∙ f)
  ]

  taken-IsOrderly :
      (r : PacketReorder A) (p : A)
      → IsOrderly r
      → get_or r.slots (r.next % 256) none ≡ some (r.next, p)
      → IsOrderly (taken r)
  taken-IsOrderly r p v e =
      let top = (v.filled (r.next % 256) r.next p e).3 in
      record {
        size = length-set r.slots (r.next % 256) none ∙ v.size;
        started = omega (arith, top);
        fits = omega (arith, top);
        filled = λ i seq q f.
            let (other, old) = taken_slot r i (seq, q) v f in
            let (at, lo, hi, fit) = v.filled i seq q old in
            (at, omega (arith, top, other), omega (arith, top), fit);
        counted = omega (arith, v.counted, count-set-none r.slots (r.next % 256) (r.next, p) e);
      }

  get_or-none :
      (r : PacketReorder A) (k : ℕ)
      → IsOrderly r
      → r.next % 256 ≡ k % 256
      → get_or (set r.slots (r.next % 256) none) (k % 256) none ≡ none
  get_or-none r k v same =
      ap (λ (i : ℕ). get_or (set r.slots (r.next % 256) none) i none) (sym same)
      ∙ get_or-set_self r.slots (r.next % 256) none none (omega (arith, v.size))

  taken_same :
      (r : PacketReorder A) (p : A) (k : ℕ)
      → get_or r.slots (r.next % 256) none ≡ some (r.next, p)
      → r.next < k
      → r.next % 256 ≡ k % 256
      → held r k ≡ none
  unfolding held value_of
  taken_same r p k e h same =
      let slot : get_or r.slots (k % 256) none ≡ some (r.next, p) =
        ap (λ (i : ℕ). get_or r.slots i none) (sym same) ∙ e in
      let other : (r.next == k) ≡ false = ground arith in rw (slot, value_of) (rw other refl)

  -- The other packets stay.
  taken-held :
      (r : PacketReorder A) (p : A) (k : ℕ)
      → IsOrderly r
      → get_or r.slots (r.next % 256) none ≡ some (r.next, p)
      → r.next < k
      → held (taken r) k ≡ held r k
  unfolding held
  taken-held r p k v e h = elim (ℕ_discrete (r.next % 256) (k % 256)) [
    | yes same ↦
        let before : held r k ≡ none = taken_same r p k e h same in
        ap (value_of k) (get_or-none r k v same) ∙ sym before
    | no other ↦ ap (value_of k) (get_or-set_ne r.slots (r.next % 256) (k % 256) none none other)
  ]

  -- The expected packet is handed on.
  taken-Releases :
      (r : PacketReorder A) (p : A)
      → IsOrderly r
      → get_or r.slots (r.next % 256) none ≡ some (r.next, p)
      → Releases r (taken r, p ∷ [])
  unfolding held value_of collect
  taken-Releases r p v e =
      let top = (v.filled (r.next % 256) r.next p e).3 in
      record {
        numbers = 1;
        moved = omega (arith, top);
        handed = ap (λ (o : Option A). cons_some o []) (sym (held_slot r r.next p e));
        kept = λ k h. taken-held r p k v e (omega (arith, top));
      }

  pub stay-Releases : (r : PacketReorder A) → Releases r (r, [])
  unfolding collect
  stay-Releases r = record { numbers = 0; moved = omega arith; handed = refl; kept = λ k h. refl }

  drain_more :
      (fuel : ℕ) (r : PacketReorder A) (p : A)
      → get_or r.slots (r.next % 256) none ≡ some (r.next, p)
      → drain (suc fuel) r ≡ ((drain fuel (taken r)).0, p ∷ (drain fuel (taken r)).1)
  unfolding drain
  drain_more fuel r p e =
      let same : (r.next == r.next) ≡ true = ground arith in rw (e, drain) (rw same refl)

  -- With more rounds than packets, `drain` ends at a number that is not there.
  pub drain-Drained :
      (fuel : ℕ) (r : PacketReorder A)
      → IsOrderly r
      → count r.slots < fuel
      → Drained r (drain fuel r)
  drain-Drained zero r v h = absurd (omega arith)
  drain-Drained (suc fuel) r v h = elim (Option-cases (get_or r.slots (r.next % 256) none)) [
    | inl e ↦
        let stop : drain (suc fuel) r ≡ (r, []) = unfold drain in rw (e, drain) refl in
        rw stop (record {
          orderly = v;
          waiting = e;
          releases = stay-Releases r;
          fewer = omega arith;
          reach = λ b low below. low;
          progress = λ some_there. absurd (some_there e);
        })
    | inr ((seq, p), f) ↦
        let at : seq ≡ r.next = slot_number r r.next seq p v f (omega arith) (omega arith) in
        let e : get_or r.slots (r.next % 256) none ≡ some (r.next, p) =
          f ∙ ap (λ (k : ℕ). some (k, p)) at in
        let less = count-set-none r.slots (r.next % 256) (r.next, p) e in
        let d = drain-Drained fuel (taken r) (taken-IsOrderly r p v e) (omega (arith, less)) in
        rw (drain_more fuel r p e) (record {
          orderly = d.orderly;
          waiting = d.waiting;
          releases =
              then-Hands (held r) r.next (taken r) (drain fuel (taken r)).0 (p ∷ [])
                (drain fuel (taken r)).1 (taken-Releases r p v e) d.releases;
          fewer = omega (arith, d.fewer, less);
          reach = λ b low below.
              d.reach b (omega (arith, below (r.next % 256) r.next p e))
                (λ i k q g. below i k q (taken_slot r i (k, q) v g).1);
          progress = λ there. omega (arith, d.fewer, less);
        })
  ]

  pub drain_all-Drained : (r : PacketReorder A) → IsOrderly r → Drained r (drain_all r)
  unfolding drain_all
  drain_all-Drained r v = drain-Drained 257 r v (omega (arith, count_le_length r.slots, v.size))

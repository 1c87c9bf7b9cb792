-- ===== src/BondServer/Reorder/Room.antt =====
-- A gap is skipped by a move to the lowest number held; `push` does so until its number is in the window.
use tamizdat.BondServer.Reorder.{PacketReorder, bond_reorder_window, lowest, advance_to, drain_all}
use tamizdat.BondServer.Reorder.Held.{
  held, count, IsOrderly, IsWaiting, collect-none, Releases, then-Hands, held_same,
}
use tamizdat.BondServer.Reorder.Drain.{drain_all-Drained, stay-Releases}
use tamizdat.BondServer.Reorder.Lowest.{lowest_slot, held_below_lowest, lowest-le}
use tamizdat.Prelude.{
  ℕ, List, Option, none, some, [], get_or, ltb, arith, ◌≡◌, Bool-cases, inl, inr, ◌+◌, ◌≤◌, ◌≢◌,
  ◌-◌, ◌⊎◌, ◌%◌, sym, refl, ◌<◌, ap, ◌∙◌,
}

module _ {A : Type 0} where
  -- The lowest number becomes the expected one.
  record Skipped (r r' : PacketReorder A) : Type 0 where
    orderly : IsOrderly r'
    at : r'.next ≡ lowest r
    same : r'.slots ≡ r.slots
    releases : Releases r (r', [])

  skip_gap : (r : PacketReorder A) → PacketReorder A
  skip_gap r = record r { gaps = r.gaps + (lowest r - r.next); next = lowest r }

  advance_to-eq :
      (r : PacketReorder A)
      → r.next ≤ lowest r
      → (advance_to (lowest r) r ≡ skip_gap r) ⊎ (advance_to (lowest r) r ≡ r) × (r.next ≡ lowest r)
  unfolding advance_to skip_gap
  advance_to-eq r h = elim (Bool-cases (ltb r.next (lowest r))) [
    | inl above ↦ inl (rw above refl)
    | inr at ↦ inr (rw at refl, ground arith)
  ]

  skip_gap-Skipped : (r : PacketReorder A) → IsOrderly r → lowest r ≢ 0 → Skipped r (skip_gap r)
  unfolding skip_gap
  skip_gap-Skipped r v there =
      let (p, e) = lowest_slot r v there in
      let (at, lo, hi, fit) = v.filled (lowest r % 256) (lowest r) p e in
      record {
        orderly = record {
          size = v.size;
          started = omega arith;
          fits = omega arith;
          filled = λ i seq q f.
              let (here, low, high, top) = v.filled i seq q f in
              (here, lowest-le r i seq q v f, omega (arith, lo, high), top);
          counted = v.counted;
        };
        at = refl;
        same = refl;
        releases = record {
          numbers = lowest r - r.next;
          moved = omega arith;
          handed = sym (
              collect-none (held r) r.next (lowest r - r.next)
                (λ k low high. held_below_lowest r k v (omega arith)));
          kept = λ k h. held_same r (skip_gap r) k refl;
        };
      }

  stay-Skipped : (r : PacketReorder A) → IsOrderly r → r.next ≡ lowest r → Skipped r r
  stay-Skipped r v e = record { orderly = v; at = e; same = refl; releases = stay-Releases r }

  advance_to-Skipped :
      (r : PacketReorder A) → IsOrderly r → lowest r ≢ 0 → Skipped r (advance_to (lowest r) r)
  advance_to-Skipped r v there =
      let (p, e) = lowest_slot r v there in
      let lo = (v.filled (lowest r % 256) (lowest r) p e).1 in
      elim (advance_to-eq r lo) [
        | inl skipped ↦ rw skipped (skip_gap-Skipped r v there)
        | inr (stays, at) ↦ rw stays (stay-Skipped r v at)
      ]

  -- A round of the loop: the lowest packet at least is handed on.
  pub record Round (r : PacketReorder A) (result : PacketReorder A × List A) : Type 0 where
    pub orderly : IsOrderly result.0
    pub waiting : IsWaiting result.0
    pub releases : Releases r result
    pub fewer : count result.0.slots < count r.slots
    pub reach : result.0.next ≤ r.next + bond_reorder_window

  abbrev pub round : PacketReorder A → PacketReorder A × List A
  round r = drain_all (advance_to (lowest r) r)

  pub round-Round : (r : PacketReorder A) → IsOrderly r → lowest r ≢ 0 → Round r (round r)
  round-Round r v there =
      let r1 = advance_to (lowest r) r in
      let s = advance_to-Skipped r v there in
      let d = drain_all-Drained r1 s.orderly in
      let (p, e) = lowest_slot r v there in
      let (at, lo, hi, fit) = v.filled (lowest r % 256) (lowest r) p e in
      let found : get_or r1.slots (r1.next % 256) none ≡ some (lowest r, p) =
        ap (λ (xs : List (Option (ℕ × A))). get_or xs (r1.next % 256) none) s.same
        ∙ ap (λ (k : ℕ). get_or r.slots (k % 256) none) s.at
        ∙ e in
      let same_count : count r1.slots ≡ count r.slots = ap count s.same in
      record {
        orderly = d.orderly;
        waiting = d.waiting;
        releases =
            then-Hands (held r) r.next r1 (drain_all r1).0 [] (drain_all r1).1 s.releases
              d.releases;
        fewer = omega (arith, same_count, d.progress (λ missing. cc));
        reach = d.reach (r.next + 256) (omega (arith, s.at)) (λ i seq q f.
            (v.filled i seq q
              (sym (ap (λ (xs : List (Option (ℕ × A))). get_or xs i none) s.same) ∙ f)).2);
      }

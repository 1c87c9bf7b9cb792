-- ===== src/BondServer/Reorder/Place.antt =====
-- A number that has room finds its place, or is there already.
use tamizdat.BondServer.Reorder.{PacketReorder, drain_all, place, store, mark_gap}
use tamizdat.BondServer.Reorder.Held.{
  held, IsOrderly, IsWaiting, Hands, then-Hands, collect_same, held_same,
}
use tamizdat.BondServer.Reorder.Drain.{drain_all-Drained}
use tamizdat.BondServer.Reorder.Window.{Room}
use tamizdat.BondServer.Reorder.Stored.{with_packet, stored, stored-IsOrderly, stored-held}
use tamizdat.Prelude.{
  ℕ, List, Option, none, some, [], get_or, arith, ◌≡◌, ◌∙◌, ◌%◌, ◌+◌, refl, ◌<◌, ◌==◌, ◌++◌, false,
  ◌^◌, true, ap, if◌then◌else◌,
}

ne_of_lt : (k seq : ℕ) → k < seq → (k == seq) ≡ false
ne_of_lt k seq h = ground arith

module _ {A : Type 0} where
  -- What is behind the slot's check.
  pub record Stores (seq : ℕ) (p : A) (r : PacketReorder A) (result : PacketReorder A × List A)
      : Type 0 where
    pub orderly : IsOrderly result.0
    pub waiting : IsWaiting result.0
    pub hands : Hands (with_packet seq p (held r)) r.next result

  store-eq :
      (now seq : ℕ) (p : A) (r : PacketReorder A)
      → store now r.buffered seq p r
        ≡ (mark_gap now (drain_all (stored seq p r)).0, (drain_all (stored seq p r)).1)
  unfolding store stored
  store-eq now seq p r = refl

  -- The time of the gap has no part in what is held.
  pub mark_gap-IsOrderly :
      (now : ℕ) (r : PacketReorder A) → IsOrderly r → IsOrderly (mark_gap now r)
  unfolding mark_gap
  mark_gap-IsOrderly now r v = record {
    size = v.size;
    started = v.started;
    fits = v.fits;
    filled = v.filled;
    counted = v.counted;
  }

  pub mark_gap-Hands :
      (h : ℕ → Option A) (lo now : ℕ) (r : PacketReorder A) (out : List A)
      → Hands h lo (r, out)
      → Hands h lo (mark_gap now r, out)
  unfolding mark_gap
  mark_gap-Hands h lo now r out a = record {
    numbers = a.numbers;
    moved = a.moved;
    handed = a.handed;
    kept = λ k above. held_same r (mark_gap now r) k refl ∙ a.kept k above;
  }

  pub mark_gap-IsWaiting :
      (now : ℕ) (r : PacketReorder A) → IsWaiting r → IsWaiting (mark_gap now r)
  unfolding mark_gap
  mark_gap-IsWaiting now r w = w

  -- The packets of the state before, with the one that has found room.
  Room-Hands :
      (seq : ℕ) (p : A) (r r1 : PacketReorder A) (out : List A)
      → Room r seq (r1, out)
      → get_or r1.slots (seq % 256) none ≡ none
      → Hands (with_packet seq p (held r)) r.next (stored seq p r1, out)
  unfolding stored
  Room-Hands seq p r r1 out m e =
      let a = m.releases in
      record {
        numbers = a.numbers;
        moved = a.moved;
        handed =
            a.handed
            ∙ collect_same (held r) (with_packet seq p (held r)) r.next a.numbers (λ k low high.
              let other : (k == seq) ≡ false = ne_of_lt k seq (omega (arith, a.moved, m.low)) in
              rw other refl);
        kept = λ k above.
            stored-held seq p r1 k m.orderly e
            ∙ ap (λ (o : Option A). if k == seq then some p else o) (a.kept k above);
      }

  pub store-Stores :
      (now seq : ℕ) (p : A) (r r1 : PacketReorder A) (out : List A)
      → Room r seq (r1, out)
      → seq + 1 < 2 ^ 64
      → get_or r1.slots (seq % 256) none ≡ none
      → Stores seq p r
          ((store now r1.buffered seq p r1).0, out ++ (store now r1.buffered seq p r1).1)
  store-Stores now seq p r r1 out m fit e =
      let d =
        drain_all-Drained (stored seq p r1)
          (stored-IsOrderly seq p r1 m.orderly m.low m.high fit e) in
      rw (store-eq now seq p r1) (record {
        orderly = mark_gap-IsOrderly now (drain_all (stored seq p r1)).0 d.orderly;
        waiting = mark_gap-IsWaiting now (drain_all (stored seq p r1)).0 d.waiting;
        hands =
            mark_gap-Hands (with_packet seq p (held r)) r.next now (drain_all (stored seq p r1)).0
              (out ++ (drain_all (stored seq p r1)).1)
              (then-Hands (with_packet seq p (held r)) r.next (stored seq p r1)
                (drain_all (stored seq p r1)).0 out (drain_all (stored seq p r1)).1
                (Room-Hands seq p r r1 out m e) d.releases);
      })

  pub place_empty :
      (now seq : ℕ) (p : A) (r : PacketReorder A) (out : List A)
      → get_or r.slots (seq % 256) none ≡ none
      → place now seq p (r, out)
        ≡ ((store now r.buffered seq p r).0, out ++ (store now r.buffered seq p r).1)
  unfolding place
  place_empty now seq p r out e = rw (e, place) refl

  pub place_duplicate :
      (now seq : ℕ) (p q : A) (r : PacketReorder A) (out : List A)
      → get_or r.slots (seq % 256) none ≡ some (seq, q)
      → place now seq p (r, out) ≡ (record r { duplicate = r.duplicate + 1 }, [])
  unfolding place
  place_duplicate now seq p q r out e =
      let same : (seq == seq) ≡ true = ground arith in rw (e, place) (rw same refl)

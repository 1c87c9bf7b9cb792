-- ===== src/BondServer/Reorder/Push.antt =====
-- `push` as a change to the packets held: the number and its packet are added, and the run from the expected number on
-- is handed on.
use tamizdat.BondServer.Reorder.{PacketReorder, make_room, place, push, store}
use tamizdat.BondServer.Reorder.Held.{
  held, count, IsOrderly, IsWaiting, Hands, held_slot, held_beyond, slot_number, count_le_length,
  value_of,
}
use tamizdat.BondServer.Reorder.Window.{Room, make_room-Room}
use tamizdat.BondServer.Reorder.Stored.{with_packet}
use tamizdat.BondServer.Reorder.Place.{Stores, store-Stores, place_empty, place_duplicate}
use tamizdat.Prelude.{
  ℕ, List, none, some, [], get_or, ltb, arith, ◌≡◌, Bool-cases, inl, inr, ◌⊎◌, ◌+◌, ◌==◌, ◌%◌, ◌≤◌,
  ◌<◌, ◌||◌, sym, refl, ◌≢◌, true, false, ◌∙◌, ◌^◌, Option-cases, ap, ◌++◌,
}
use native.Mathlib.Decide.{dec_lt}
use mathlib.Core.Path.{subst}

module _ {A : Type 0} where
  -- A late number and one that is there are counted, and nothing else happens; any other is added to what is held,
  -- and all packets in front of the next one that is missing are handed on, in order.
  pub record Pushed (seq : ℕ) (p : A) (r : PacketReorder A) (result : PacketReorder A × List A)
      : Type 0 where
    pub orderly : IsOrderly result.0
    pub waiting : IsWaiting result.0
    pub late : (seq ≡ 0) ⊎ (seq < r.next) → result ≡ (record r { late = r.late + 1 }, [])
    pub duplicate :
        r.next ≤ seq → held r seq ≢ none → result ≡ (record r { duplicate = r.duplicate + 1 }, [])
    pub accepted :
        r.next ≤ seq → held r seq ≡ none → Hands (with_packet seq p (held r)) r.next result

  abbrev late_state : PacketReorder A → PacketReorder A
  late_state r = record r { late = r.late + 1 }

  abbrev duplicate_state : PacketReorder A → PacketReorder A
  duplicate_state r = record r { duplicate = r.duplicate + 1 }

  push_late :
      (now seq : ℕ) (p : A) (r : PacketReorder A)
      → (seq == 0 || ltb seq r.next) ≡ true
      → push now seq p r ≡ (late_state r, [])
  unfolding push
  push_late now seq p r e = rw e refl

  push_early :
      (now seq : ℕ) (p : A) (r : PacketReorder A)
      → (seq == 0 || ltb seq r.next) ≡ false
      → push now seq p r ≡ place now seq p (make_room 257 seq r)
  unfolding push
  push_early now seq p r e = rw e refl

  late-Pushed :
      (seq : ℕ) (p : A) (r : PacketReorder A)
      → IsOrderly r
      → IsWaiting r
      → (seq == 0 || ltb seq r.next) ≡ true
      → Pushed seq p r (late_state r, [])
  late-Pushed seq p r v w e =
      let below : seq < r.next = ground (arith, v.started) in
      record {
        orderly = record {
          size = v.size;
          started = v.started;
          fits = v.fits;
          filled = v.filled;
          counted = v.counted;
        };
        waiting = w;
        late = λ h. refl;
        duplicate = λ low there. absurd (omega arith);
        accepted = λ low there. absurd (omega arith);
      }

  held_empty_slot :
      (r : PacketReorder A) (k : ℕ) → get_or r.slots (k % 256) none ≡ none → held r k ≡ none
  unfolding held value_of
  held_empty_slot r k e = rw (e, value_of) refl

  stored-Pushed :
      (seq : ℕ) (p : A) (r r1 : PacketReorder A) (out : List A) (result : PacketReorder A × List A)
      → r.next ≤ seq
      → 1 ≤ seq
      → Room r seq (r1, out)
      → get_or r1.slots (seq % 256) none ≡ none
      → Stores seq p r result
      → Pushed seq p r result
  stored-Pushed seq p r r1 out result low pos m e s = record {
    orderly = s.orderly;
    waiting = s.waiting;
    late = λ h. absurd (ground arith);
    duplicate =
        λ k there. absurd (there (sym (m.releases.kept seq m.low) ∙ held_empty_slot r1 seq e));
    accepted = λ k there. s.hands;
  }

  -- A number that is there was there before, and nothing was handed on.
  there-before :
      (seq : ℕ) (q : A) (r r1 : PacketReorder A) (out : List A)
      → IsOrderly r
      → Room r seq (r1, out)
      → get_or r1.slots (seq % 256) none ≡ some (seq, q)
      → (held r seq ≡ some q) × (r1 ≡ r)
  there-before seq q r r1 out v m e =
      let there : held r seq ≡ some q = sym (m.releases.kept seq m.low) ∙ held_slot r1 seq q e in
      elim (dec_lt seq (r.next + 256)) [
        | yes near ↦ (there, ap (λ (x : PacketReorder A × List A). x.0) (m.quiet near))
        | no far ↦ absurd (cc (held_beyond r seq v (omega (arith, far))))
      ]

  duplicate-Pushed :
      (seq : ℕ) (p q : A) (r : PacketReorder A)
      → IsOrderly r
      → IsWaiting r
      → r.next ≤ seq
      → held r seq ≡ some q
      → Pushed seq p r (duplicate_state r, [])
  duplicate-Pushed seq p q r v w low there = record {
    orderly = record {
      size = v.size;
      started = v.started;
      fits = v.fits;
      filled = v.filled;
      counted = v.counted;
    };
    waiting = w;
    late = λ h. absurd (ground (arith, v.started));
    duplicate = λ k h. refl;
    accepted = λ k h. absurd (cc);
  }

  early-Pushed :
      (now seq : ℕ) (p : A) (r r1 : PacketReorder A) (out : List A)
      → IsOrderly r
      → IsWaiting r
      → r.next ≤ seq
      → seq + 1 < 2 ^ 64
      → Room r seq (r1, out)
      → Pushed seq p r (place now seq p (r1, out))
  early-Pushed now seq p r r1 out v w low fit m =
      elim (Option-cases (get_or r1.slots (seq % 256) none)) [
        | inl e ↦ rw (place_empty now seq p r1 out e) (
            stored-Pushed seq p r r1 out
              ((store now r1.buffered seq p r1).0, out ++ (store now r1.buffered seq p r1).1) low
              (omega (arith, low, v.started)) m e (store-Stores now seq p r r1 out m fit e))
        | inr ((old, q), f) ↦
            let number : old ≡ seq = slot_number r1 seq old q m.orderly f m.low m.high in
            let e : get_or r1.slots (seq % 256) none ≡ some (seq, q) =
              f ∙ ap (λ (k : ℕ). some (k, q)) number in
            let (there, same) = there-before seq q r r1 out v m e in
            rw (place_duplicate now seq p q r1 out e) (
              subst (λ (x : PacketReorder A). Pushed seq p r (duplicate_state x, [])) (sym same)
                (duplicate-Pushed seq p q r v w low there))
      ]

  -- On an orderly buffer that waits for its expected number, `push` of a number below the top of its type keeps it
  -- orderly and waiting. A late number, or zero, is counted and changes nothing else, and so is one that is held. Any
  -- other is added to the packets held, and of these the ones below the new expected number are handed on, in order,
  -- the others stay.
  pub push-Pushed :
      (now seq : ℕ) (p : A) (r : PacketReorder A)
      → IsOrderly r
      → IsWaiting r
      → seq + 1 < 2 ^ 64
      → Pushed seq p r (push now seq p r)
  push-Pushed now seq p r v w fit = elim (Bool-cases (seq == 0 || ltb seq r.next)) [
    | inl e ↦ rw (push_late now seq p r e) (late-Pushed seq p r v w e)
    | inr e ↦
        let low : r.next ≤ seq = ground arith in
        let small : count r.slots < 257 = omega (arith, count_le_length r.slots, v.size) in
        let made = make_room 257 seq r in
        rw (push_early now seq p r e) (
          early-Pushed now seq p r made.0 made.1 v w low fit
            (make_room-Room 257 seq r v w low fit small))
  ]

-- ===== src/BondServer/Reorder/Account.antt =====
-- A whole run of the buffer keeps account of what has arrived.
use tamizdat.BondServer.Reorder.{PacketReorder, push, flush_expired}
use tamizdat.BondServer.Reorder.Held.{
  held, IsOrderly, IsWaiting, collect, collect_same, collect-append, Hands, held_same,
}
use tamizdat.BondServer.Reorder.Stored.{with_packet}
use tamizdat.BondServer.Reorder.Push.{Pushed, push-Pushed}
use tamizdat.BondServer.Reorder.Flush.{Flushed, flush_expired-Flushed}
use tamizdat.BondServer.Reorder.Run.{
  Event, frame, tick, react, run, accepted, InRange, Accounts, new-Accounts,
}
use tamizdat.Prelude.{
  ℕ, List, Option, none, some, ◌∷◌, [], arith, ◌≡◌, Bool-cases, inl, inr, ◌<◌, ◌⊎◌, ◌≤◌, ◌++◌, ◌==◌,
  ◌≢◌, ◌+◌, ap, false, ◌∙◌, if◌then◌else◌, Option-cases, sym, append-nil, refl, leb, ◌&&◌, true,
}
use native.Mathlib.Decide.{dec_lt}

module _ {A : Type 0} where
  with_packet_below :
      (seq : ℕ) (p : A) (h : ℕ → Option A) (k : ℕ) → k < seq → with_packet seq p h k ≡ h k
  with_packet_below seq p h k below = let other : (k == seq) ≡ false = ground arith in rw other refl

  with_packet-cases :
      (seq : ℕ) (p : A) (h : ℕ → Option A) (k : ℕ) (q : A)
      → with_packet seq p h k ≡ some q
      → ((seq ≡ k) × (p ≡ q)) ⊎ (h k ≡ some q)
  with_packet-cases seq p h k q e = elim (Bool-cases (k == seq)) [
    | inl same ↦ let here : some p ≡ some q = rw same at e in inl (ground arith, cc)
    | inr other ↦ let there : h k ≡ some q = rw other at e in inr there
  ]

  with_packet_there :
      (seq : ℕ) (p : A) (h : ℕ → Option A) (k : ℕ)
      → (seq ≡ k) ⊎ (h k ≢ none)
      → with_packet seq p h k ≢ none
  with_packet_there seq p h k there e = elim (Bool-cases (k == seq)) [
    | inl same ↦ let here : ◌≡◌ {A = Option A} (some p) none = rw same at e in cc
    | inr other ↦ elim there [
      | inl number ↦ absurd (ground arith)
      | inr old ↦ let gone : h k ≡ none = rw other at e in old gone
    ]
  ]

  -- A frame that takes a number's packet, where none had it.
  accepted-free :
      (hold now seq : ℕ) (p : A) (before : List (Event A)) (k : ℕ)
      → (run hold before).0.next ≤ seq
      → accepted hold before seq ≡ none
      → accepted hold (frame now seq p ∷ before) k ≡ with_packet seq p (accepted hold before) k
  unfolding accepted
  accepted-free hold now seq p before k low free =
      let there : leb (run hold before).0.next seq ≡ true = ground arith in
      elim (Bool-cases (k == seq)) [
        | inl same ↦
            let number : k ≡ seq = ground arith in
            let gone : accepted hold before k ≡ none =
              ap (λ (j : ℕ). accepted hold before j) number ∙ free in
            rw (gone, same, there) refl
        | inr other ↦ elim (Option-cases (accepted hold before k)) [
          | inl gone ↦ rw (gone, other) refl
          | inr (q, old) ↦ rw (old, other) refl
        ]
      ]

  -- A frame that takes no number's packet: late, or its number has one.
  accepted-dropped :
      (hold now seq : ℕ) (p : A) (before : List (Event A)) (k : ℕ)
      → ((run hold before).0.next ≤ seq → accepted hold before seq ≢ none)
      → accepted hold (frame now seq p ∷ before) k ≡ accepted hold before k
  unfolding accepted
  accepted-dropped hold now seq p before k there = elim (Option-cases (accepted hold before k)) [
    | inr (q, old) ↦ rw old refl
    | inl gone ↦ elim (Bool-cases (k == seq && leb (run hold before).0.next seq)) [
      | inr other ↦ rw (gone, other) refl
      | inl same ↦
          let number : seq ≡ k = ground arith in
          absurd (there (ground arith) (ap (λ (j : ℕ). accepted hold before j) number ∙ gone))
    ]
  ]

  -- A move of the expected number, with packets that are the same below it.
  moved-handed :
      (hold : ℕ) (events : List (Event A)) (r r' : PacketReorder A) (out more : List A)
      (f packets' : ℕ → Option A) (a : Accounts hold events (r, out))
      (h : Hands f r.next (r', more))
      → ((k : ℕ) → k < r.next → accepted hold events k ≡ packets' k)
      → ((k : ℕ) → r.next ≤ k → f k ≡ packets' k)
      → out ++ more ≡ collect packets' 1 (a.numbers + h.numbers)
  moved-handed hold events r r' out more f packets' a h below above =
      ap (λ (t : List A). t ++ more)
        (a.handed
          ∙ collect_same (accepted hold events) packets' 1 a.numbers
              (λ k low high. below k (omega (arith, a.expected))))
      ∙ ap (λ (t : List A). collect packets' 1 a.numbers ++ t)
          (h.handed
            ∙ collect_same f packets' r.next h.numbers (λ k low high. above k low)
            ∙ ap (λ (k : ℕ). collect packets' k h.numbers) a.expected)
      ∙ sym (collect-append packets' 1 a.numbers h.numbers)

  -- A frame that is late, or there already.
  dropped-Accounts :
      (hold now seq : ℕ) (p : A) (before : List (Event A)) (r r' : PacketReorder A)
      (out more : List A) (a : Accounts hold before (r, out))
      → (run hold before).0.next ≡ r.next
      → IsOrderly r'
      → IsWaiting r'
      → r'.next ≡ r.next
      → r'.slots ≡ r.slots
      → more ≡ []
      → (r.next ≤ seq → held r seq ≢ none)
      → Accounts hold (frame now seq p ∷ before) (r', out ++ more)
  dropped-Accounts hold now seq p before r r' out more a reached v w same slots none_out there =
      let agree : (k : ℕ) → accepted hold (frame now seq p ∷ before) k ≡ accepted hold before k =
        λ k. accepted-dropped hold now seq p before k λ low missing.
          let low' : r.next ≤ seq = omega (arith, low, reached) in
          there low' (a.holds seq low' ∙ missing) in
      record {
        orderly = v;
        waiting = w;
        numbers = a.numbers;
        expected = same ∙ a.expected;
        handed =
            ap (λ (t : List A). out ++ t) none_out
            ∙ append-nil out
            ∙ a.handed
            ∙ collect_same (accepted hold before) (accepted hold (frame now seq p ∷ before)) 1
                a.numbers (λ k low high. sym (agree k));
        holds = λ k h. held_same r r' k slots ∙ a.holds k (omega (arith, same)) ∙ sym (agree k);
        genuine = λ k q e. inr (a.genuine k q (sym (agree k) ∙ e));
        complete = λ k q m h missing. elim m [
          | inl (number, payload) ↦ there (omega (arith, same, number)) (
              a.holds seq (omega (arith, same, number))
              ∙ ap (λ (j : ℕ). accepted hold before j) number
              ∙ sym (agree k)
              ∙ missing)
          | inr earlier ↦ a.complete k q earlier (omega (arith, same)) (sym (agree k) ∙ missing)
        ];
      }

  accepted-Accounts :
      (hold now seq : ℕ) (p : A) (before : List (Event A)) (r r' : PacketReorder A)
      (out more : List A) (a : Accounts hold before (r, out))
      → (run hold before).0.next ≡ r.next
      → IsOrderly r'
      → IsWaiting r'
      → r.next ≤ seq
      → held r seq ≡ none
      → Hands (with_packet seq p (held r)) r.next (r', more)
      → Accounts hold (frame now seq p ∷ before) (r', out ++ more)
  accepted-Accounts hold now seq p before r r' out more a reached v w low free h =
      let packets = accepted hold before in
      let after = accepted hold (frame now seq p ∷ before) in
      let agree : (k : ℕ) → after k ≡ with_packet seq p packets k = λ k.
        accepted-free hold now seq p before k (omega (arith, low, reached))
          (sym (a.holds seq low) ∙ free) in
      let above : (k : ℕ) → r.next ≤ k → with_packet seq p (held r) k ≡ after k = λ k g.
        ap (λ (o : Option A). if k == seq then some p else o) (a.holds k g) ∙ sym (agree k) in
      record {
        orderly = v;
        waiting = w;
        numbers = a.numbers + h.numbers;
        expected = omega (arith, h.moved, a.expected);
        handed =
            moved-handed hold before r r' out more (with_packet seq p (held r)) after a h
              (λ k g. sym (agree k ∙ with_packet_below seq p packets k (omega arith))) above;
        holds = λ k g. h.kept k g ∙ above k (omega (arith, h.moved));
        genuine = λ k q e. elim (with_packet-cases seq p packets k q (sym (agree k) ∙ e)) [
          | inl new ↦ inl new
          | inr old ↦ inr (a.genuine k q old)
        ];
        complete = λ k q m g missing. elim m [
          | inl (number, payload) ↦
              with_packet_there seq p packets k (inl number) (sym (agree k) ∙ missing)
          | inr earlier ↦
              with_packet_there seq p packets k
                (inr (a.complete k q earlier (omega (arith, h.moved)))) (sym (agree k) ∙ missing)
        ];
      }

  frame-Accounts :
      (hold now seq : ℕ) (p : A) (before : List (Event A)) (r r' : PacketReorder A)
      (out more : List A)
      → (run hold before).0.next ≡ r.next
      → Accounts hold before (r, out)
      → Pushed seq p r (r', more)
      → Accounts hold (frame now seq p ∷ before) (r', out ++ more)
  frame-Accounts hold now seq p before r r' out more reached a d = elim (dec_lt seq r.next) [
    | yes below ↦
        let e = d.late (inr below) in
        dropped-Accounts hold now seq p before r r' out more a reached d.orderly d.waiting
          (ap (λ (x : PacketReorder A × List A). x.0.next) e)
          (ap (λ (x : PacketReorder A × List A). x.0.slots) e)
          (ap (λ (x : PacketReorder A × List A). x.1) e) (λ low. absurd (omega arith))
    | no above ↦
        let low : r.next ≤ seq = omega arith in
        elim (Option-cases (held r seq)) [
          | inl free ↦
              accepted-Accounts hold now seq p before r r' out more a reached d.orderly d.waiting
                low free (d.accepted low free)
          | inr (q, there) ↦
              let e = d.duplicate low (λ missing. cc) in
              dropped-Accounts hold now seq p before r r' out more a reached d.orderly d.waiting
                (ap (λ (x : PacketReorder A × List A). x.0.next) e)
                (ap (λ (x : PacketReorder A × List A). x.0.slots) e)
                (ap (λ (x : PacketReorder A × List A). x.1) e) (λ k missing. cc)
        ]
  ]

  tick-Accounts :
      (hold now : ℕ) (before : List (Event A)) (r r' : PacketReorder A) (out more : List A)
      → Accounts hold before (r, out)
      → Flushed now r (r', more)
      → Accounts hold (tick now ∷ before) (r', out ++ more)
  unfolding accepted
  tick-Accounts hold now before r r' out more a d =
      let h = d.releases in
      record {
        orderly = d.orderly;
        waiting = d.waiting;
        numbers = a.numbers + h.numbers;
        expected = omega (arith, h.moved, a.expected);
        handed =
            moved-handed hold before r r' out more (held r) (accepted hold before) a h (λ k g. refl)
              a.holds;
        holds = λ k g. h.kept k g ∙ a.holds k (omega (arith, h.moved));
        genuine = a.genuine;
        complete = λ k q m g. a.complete k q m (omega (arith, h.moved));
      }

  -- In any order of frames and ticks, of numbers below the top of their type, call accepted the payload that came
  -- first under a number while the number was not below the expected one. What has been handed on is exactly the
  -- accepted packets below the expected number, in order of number, each once. Those not below it are held, and at
  -- no such number is anything else. Each accepted packet arrived, and a number not below the expected one under
  -- which a frame arrived has an accepted packet. A packet that comes late is not accepted.
  pub run-Accounts :
      (hold : ℕ) (events : List (Event A)) → InRange events → Accounts hold events (run hold events)
  unfolding run react
  run-Accounts hold [] fit = new-Accounts hold
  run-Accounts hold (frame now seq p ∷ before) fit =
      let a = run-Accounts hold before fit.1 in
      let r = (run hold before).0 in
      frame-Accounts hold now seq p before r (push now seq p r).0 (run hold before).1
        (push now seq p r).1 refl a (push-Pushed now seq p r a.orderly a.waiting fit.0)
  run-Accounts hold (tick now ∷ before) fit =
      let a = run-Accounts hold before fit in
      let r = (run hold before).0 in
      tick-Accounts hold now before r (flush_expired now r).0 (run hold before).1
        (flush_expired now r).1 a (flush_expired-Flushed now r a.orderly a.waiting)

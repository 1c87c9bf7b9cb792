-- ===== src/BondServer/Reorder/Run.antt =====
-- A whole run of the buffer, from its making on: what arrives, and what has been handed on.
use tamizdat.BondServer.Reorder.{
  PacketReorder, new_packet_reorder, empty_slots, push, flush_expired,
}
use tamizdat.BondServer.Reorder.Held.{held, count, IsOrderly, IsWaiting, collect, value_of}
use tamizdat.Prelude.{
  ℕ, List, Option, none, some, ◌∷◌, [], get_or, arith, ◌≡◌, ◌++◌, ◌+◌, ◌⊎◌, ◌<◌, ◌≤◌, ◌^◌, ◌≢◌, suc,
  ◌%◌, refl, zero, ◌==◌, ◌&&◌, leb, if◌then◌else◌,
}

-- What happens to the buffer: a frame with its time, number and payload, or a tick.
pub data Event (A : Type 0) : Type 0 where
  frame : ℕ → ℕ → A → Event A
  tick : ℕ → Event A

module _ {A : Type 0} where
  unfoldable pub react : Event A → PacketReorder A → PacketReorder A × List A
  react (frame now seq p) r = push now seq p r
  react (tick now) r = flush_expired now r

  -- The events stand the newest first.
  unfoldable pub run : ℕ → List (Event A) → PacketReorder A × List A
  unfolding react
  run hold [] = (new_packet_reorder hold, [])
  run hold (e ∷ before) =
      let (r, out) = run hold before in let (r', more) = react e r in (r', out ++ more)

  -- The numbers are below the top of their type.
  abbrev pub InRange : List (Event A) → Type 0
  InRange [] = Unit
  InRange (frame now seq p ∷ before) = (seq + 1 < 2 ^ 64) × InRange before
  InRange (tick now ∷ before) = InRange before

  abbrev pub Arrived : ℕ → A → List (Event A) → Type 0
  Arrived k p [] = ⊥
  Arrived k p (frame now seq q ∷ before) = (seq ≡ k) × (q ≡ p) ⊎ Arrived k p before
  Arrived k p (tick now ∷ before) = Arrived k p before

  -- The packet of each number: the payload that came first under it while it was not below the expected number.
  unfoldable pub accepted : ℕ → List (Event A) → ℕ → Option A
  unfolding run
  accepted hold [] k = none
  accepted hold (tick now ∷ before) k = accepted hold before k
  accepted hold (frame now seq p ∷ before) k = elim (accepted hold before k) [
    | some q ↦ some q
    | none ↦ if k == seq && leb (run hold before).0.next seq then some p else none
  ]

  -- What was handed on are the accepted packets below the expected number, in order; those not below it are held, and
  -- nothing else. Each accepted packet arrived, and a number not below the expected one under which a frame arrived
  -- has one.
  pub record Accounts (hold : ℕ) (events : List (Event A)) (result : PacketReorder A × List A)
      : Type 0 where
    pub orderly : IsOrderly result.0
    pub waiting : IsWaiting result.0
    pub numbers : ℕ
    pub expected : result.0.next ≡ 1 + numbers
    pub handed : result.1 ≡ collect (accepted hold events) 1 numbers
    pub holds : (k : ℕ) → result.0.next ≤ k → held result.0 k ≡ accepted hold events k
    pub genuine : (k : ℕ) (p : A) → accepted hold events k ≡ some p → Arrived k p events
    pub complete :
        (k : ℕ) (p : A) → Arrived k p events → result.0.next ≤ k → accepted hold events k ≢ none

  empty_slot : (n i : ℕ) → get_or (empty_slots {A = A} n) i none ≡ none
  unfolding empty_slots
  empty_slot zero i = refl
  empty_slot (suc n) zero = refl
  empty_slot (suc n) (suc i) = empty_slot n i

  held-new : (hold k : ℕ) → held (new_packet_reorder {A = A} hold) k ≡ none
  unfolding held value_of new_packet_reorder
  held-new hold k = rw (empty_slot 256 (k % 256), value_of) refl

  pub new-Accounts : (hold : ℕ) → Accounts hold [] (new_packet_reorder {A = A} hold, [])
  unfolding new_packet_reorder collect count accepted
  new-Accounts hold = record {
    orderly = record {
      size = refl;
      started = omega arith;
      fits = omega arith;
      filled = λ i seq p e. absurd (cc (empty_slot 256 i));
      counted = refl;
    };
    waiting = refl;
    numbers = 0;
    expected = refl;
    handed = refl;
    holds = λ k h. held-new hold k;
    genuine = λ k p e. cc;
    complete = λ k p m. absurd m;
  }

-- ===== src/Pool/Recover.antt =====
-- A pool of one transport recovers when that one is dead.
use tamizdat.Pool.{
  Transport, Pool, again, dial, reserve_slot, reserve_locked, capacity, without_dead, get_full,
  get_open, get_begin,
}
use tamizdat.Pool.Reserve.{Refuses, reserve_locked-none_iff}
use tamizdat.Prelude.{
  ◌≡◌, List, ◌≤◌, ℕ, true, All, arith, [], false, ◌⊎◌, ◌∷◌, none, Bool-cases, refl, leb, length,
  ◌+◌, inr, inl,
}

-- Closed, or draining with no stream left.
abbrev pub IsDead : Transport → Type 0
IsDead t = (t.is_closed ≡ true) ⊎ ((t.is_draining ≡ true) × (t.active_streams ≡ 0))

dead-Refuses : (ts : List Transport) → All IsDead ts → All Refuses ts
unfolding reserve_slot
dead-Refuses [] d = tt
dead-Refuses (t ∷ ts) d = (ground arith, dead-Refuses ts d.1)

without_dead-nil : (ts : List Transport) → All IsDead ts → without_dead ts ≡ []
unfolding without_dead
without_dead-nil [] d = refl
without_dead-nil (t ∷ ts) d = ground (arith, without_dead-nil ts d.1)

capacity_ge : (p : Pool) → p.max_transports ≤ capacity p
unfolding capacity
capacity_ge p = ground arith

empty_dials :
    (now : ℕ) (p : Pool)
    → p.transports ≡ []
    → p.closed ≡ false
    → p.creating ≡ 0
    → p.max_transports ≡ 1
    → (get_begin now p).1 ≡ dial
unfolding get_begin get_open
empty_dials now p e c z one =
    let none_left : reserve_locked p ≡ none = (reserve_locked-none_iff p).1 (rw e tt) in
    ground (arith, none_left, capacity_ge p)

-- In an open pool with a maximum of 1, no dial under way and only dead transports, `getTransport` dials at once or
-- after a round that clears them out.
pub get_begin-recovers :
    (now later : ℕ) (p : Pool)
    → p.closed ≡ false
    → p.creating ≡ 0
    → p.max_transports ≡ 1
    → All IsDead p.transports
    → ((get_begin now p).1 ≡ dial)
      ⊎ (((get_begin now p).1 ≡ again) × ((get_begin later (get_begin now p).0).1 ≡ dial))
unfolding get_begin get_open get_full
get_begin-recovers now later p c z one d =
    let refused : reserve_locked p ≡ none =
      (reserve_locked-none_iff p).1 (dead-Refuses p.transports d) in
    let gone = without_dead-nil p.transports d in
    elim (Bool-cases (leb (capacity p) (length p.transports + p.creating))) [
      | inr e ↦ inl (ground (arith, refused))
      | inl e ↦ inr (
        ground (arith, refused, gone, capacity_ge p),
        empty_dials later (get_begin now p).0 (ground (arith, refused, gone, capacity_ge p))
            (ground (arith, refused, gone, capacity_ge p))
            (ground (arith, refused, gone, capacity_ge p))
            (ground (arith, refused, gone, capacity_ge p)),
      )
    ]

-- ===== src/Pool/Reserve.antt =====
-- `reserveLocked` finds a slot whenever there is one.
use tamizdat.Pool.{Transport, Pool, reserve_slot, reserve_from, reserve_locked}
use tamizdat.Pool.Limits.{reserve_locked-found}
use tamizdat.Prelude.{
  ◌≡◌, List, ℕ, none, ◌<◌, if◌then◌else◌, length, ◌%◌, leb, ◌+◌, get_elem?, arith, ◌≤◌, ◌-◌,
  Bool-cases, some, inl, ◌∷◌, suc, inr, Option-cases, [], zero, refl, All, ◌↔◌,
}
use native.Mathlib.Decide.{ℕ_discrete}

-- The transport grants no slot.
abbrev pub Refuses : Transport → Type 0
Refuses t = reserve_slot t ≡ none

get_elem?-lt :
    (ts : List Transport) (i : ℕ) → i < length ts → (t : Transport) × (get_elem? ts i ≡ some t)
get_elem?-lt [] i h = absurd (ground arith)
get_elem?-lt (x ∷ ts) zero h = (x, refl)
get_elem?-lt (x ∷ ts) (suc i) h = get_elem?-lt ts i (ground arith)

mod_lt : (a n : ℕ) → 0 < n → a % n < n
mod_lt a n h = grind arith

-- Each round that is made without success has met a transport that refuses.
rounds_refused :
    (left i start : ℕ) (ts : List Transport)
    → 0 < length ts
    → reserve_from left i start ts ≡ none
    → (k : ℕ) (t : Transport) → i ≤ k
    → k < i + left
    → get_elem? ts ((start + k) % length ts) ≡ some t
    → Refuses t
unfolding reserve_from
rounds_refused zero i start ts n h k t le lt e = absurd (omega arith)
rounds_refused (suc left) i start ts n h k t le lt e =
    let (u, f) = get_elem?-lt ts ((start + i) % length ts) (mod_lt (start + i) (length ts) n) in
    elim (Option-cases (reserve_slot u)) [
      | inr (u', g) ↦ absurd (ground arith)
      | inl g ↦ elim (ℕ_discrete i k) [
        | yes same ↦ ground arith
        | no other ↦
            rounds_refused left (suc i) start ts n (ground arith) k t (omega arith) (omega arith) e
      ]
    ]

-- The round in which the index `j` is met.
round_of : ℕ → ℕ → ℕ → ℕ
round_of start n j = if leb start j then j - start else j + n - start

round_of_lem :
    (start n j : ℕ)
    → start < n
    → j < n
    → (round_of start n j < n) × ((start + round_of start n j) % n ≡ j)
unfolding round_of
round_of_lem start n j hs hj = elim (Bool-cases (leb start j)) [
  | inl e ↦
      let sum : start + (j - start) ≡ j = ground arith in rw (e, sum) (omega arith, grind arith)
  | inr e ↦
      let sum : start + (j + n - start) ≡ j + n = ground arith in
      rw (e, sum) (ground arith, grind arith)
]

all_by_index :
    (ts : List Transport)
    → ((j : ℕ) (t : Transport) → get_elem? ts j ≡ some t → Refuses t)
    → All Refuses ts
all_by_index [] h = tt
all_by_index (x ∷ ts) h = (h 0 x refl, all_by_index ts λ j t e. h (suc j) t e)

All-get_elem? :
    (ts : List Transport) (j : ℕ) (t : Transport)
    → All Refuses ts
    → get_elem? ts j ≡ some t
    → Refuses t
All-get_elem? [] j t a h = absurd (cc)
All-get_elem? (x ∷ ts) zero t a h = ground arith
All-get_elem? (x ∷ ts) (suc j) t a h = All-get_elem? ts j t a.1 h

get_elem?-some_lt :
    (ts : List Transport) (j : ℕ) (t : Transport) → get_elem? ts j ≡ some t → j < length ts
get_elem?-some_lt [] j t h = absurd (cc)
get_elem?-some_lt (x ∷ ts) zero t h = omega arith
get_elem?-some_lt (x ∷ ts) (suc j) t h = omega (arith, get_elem?-some_lt ts j t h)

none-Refuses : (p : Pool) → reserve_locked p ≡ none → All Refuses p.transports
unfolding reserve_locked
none-Refuses p h = all_by_index p.transports λ j t e.
    let n = length p.transports in
    let lt : j < n = get_elem?-some_lt p.transports j t e in
    let from = p.round_robin % n in
    let r = round_of_lem from n j (mod_lt p.round_robin n (omega (arith, lt))) lt in
    rounds_refused n 0 from p.transports (omega (arith, lt)) (ground (arith, lt))
      (round_of from n j) t (omega arith) (omega (arith, r.0)) (rw (r.1) e)

-- `reserveLocked` gives up exactly when every transport of the pool refuses, wherever the round robin stands.
pub reserve_locked-none_iff : (p : Pool) → (reserve_locked p ≡ none) ↔ All Refuses p.transports
reserve_locked-none_iff p = (
  none-Refuses p,
  λ a. elim (Option-cases (reserve_locked p)) [
    | inl e ↦ e
    | inr ((idx, t'), e) ↦
        let (t, found, slot) = reserve_locked-found p idx t' e in
        absurd (ground (arith, All-get_elem? p.transports idx t a found))
  ],
)

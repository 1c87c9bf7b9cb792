-- ===== src/Pool/Limits.antt =====
-- What each section keeps: the number of usable transports, and the streams of each.
use tamizdat.Prelude.{true, false, ◌+◌, ◌%◌, Bool}
use tamizdat.Pool.{
  get_open, Transport, Pool, Begun, canceled, reserve_slot, reserve_from, reserve_locked, capacity,
  without_dead, get_full, get_begin, append_dialed, usable_count, top_up_begin, enforce,
  enforce_max, resize, without_idle, cleanup, close,
}
use tamizdat.Pool.Shrink.{usable_count-enforce}
use tamizdat.Prelude.{
  ◌≡◌, ℕ, List, ◌⊎◌, if◌then◌else◌, ◌++◌, ◌≤◌, get_elem?, All, ◌||◌, ◌∷◌, length, some, set, arith,
  [], suc, ◌+◌, zero, false, Option-cases, ◌%◌, Bool-cases, All-append, ltb, inl, inr, leb,
}

-- A transport has no more streams than its limit, where it has one.
abbrev pub WithinLimit : Transport → Type 0
WithinLimit t = (t.stream_limit ≡ 0) ⊎ (t.active_streams ≤ t.stream_limit)

abbrev pub usable_one : Transport → ℕ
usable_one t = if t.is_closed || t.is_draining then 0 else 1

usable_count-append :
    (ts : List Transport) (t : Transport) → usable_count (ts ++ t ∷ []) ≤ usable_count ts + 1
unfolding usable_count
usable_count-append [] t = ground arith
usable_count-append (u ∷ ts) t = ground (arith, usable_count-append ts t)

pub usable_count-le_length : (ts : List Transport) → usable_count ts ≤ length ts
unfolding usable_count
usable_count-le_length [] = omega arith
usable_count-le_length (t ∷ ts) = ground (arith, usable_count-le_length ts)

pub usable_count-set :
    (ts : List Transport) (i : ℕ) (t u : Transport)
    → get_elem? ts i ≡ some t
    → usable_one u ≤ usable_one t
    → usable_count (set ts i u) ≤ usable_count ts
unfolding usable_count
usable_count-set [] i t u e h = absurd (cc)
usable_count-set (x ∷ ts) zero t u e h = ground arith
usable_count-set (x ∷ ts) (suc i) t u e h = ground (arith, usable_count-set ts i t u e h)

pub All-set :
    (ts : List Transport) (i : ℕ) (u : Transport)
    → All WithinLimit ts
    → WithinLimit u
    → All WithinLimit (set ts i u)
All-set [] i u a h = tt
All-set (x ∷ ts) zero u a h = (h, a.1)
All-set (x ∷ ts) (suc i) u a h = (a.0, All-set ts i u a.1 h)

usable_count-without_dead : (ts : List Transport) → usable_count (without_dead ts) ≤ usable_count ts
unfolding usable_count without_dead
usable_count-without_dead [] = omega arith
usable_count-without_dead (t ∷ ts) = ground (arith, usable_count-without_dead ts)

usable_count-without_idle :
    (now timeout : ℕ) (ts : List Transport)
    → usable_count (without_idle now timeout ts) ≤ usable_count ts
unfolding usable_count without_idle
usable_count-without_idle now timeout [] = omega arith
usable_count-without_idle now timeout (t ∷ ts) =
    ground (arith, usable_count-without_idle now timeout ts)

All-without_dead : (ts : List Transport) → All WithinLimit ts → All WithinLimit (without_dead ts)
unfolding without_dead
All-without_dead [] a = tt
All-without_dead (t ∷ ts) a = ground (arith, All-without_dead ts a.1)

All-without_idle :
    (now timeout : ℕ) (ts : List Transport)
    → All WithinLimit ts
    → All WithinLimit (without_idle now timeout ts)
unfolding without_idle
All-without_idle now timeout [] a = tt
All-without_idle now timeout (t ∷ ts) a = ground (arith, All-without_idle now timeout ts a.1)

All-enforce :
    (most usable : ℕ) (ts : List Transport)
    → All WithinLimit ts
    → All WithinLimit (enforce most usable ts)
unfolding enforce
All-enforce most usable [] a = tt
All-enforce most usable (t ∷ ts) a =
    ground (arith, All-enforce most usable ts a.1, All-enforce most (suc usable) ts a.1)

-- What `reserveStreamSlot` grants.
pub reserve_slot-granted :
    (t t' : Transport)
    → reserve_slot t ≡ some t'
    → (t.is_closed ≡ false)
      × (t.is_draining ≡ false)
      × WithinLimit t'
      × (usable_one t' ≡ usable_one t)
      × (t'.active_streams ≡ t.active_streams + 1)
      × (t'.id ≡ t.id)
unfolding reserve_slot
reserve_slot-granted t t' h = ground arith

pub reserve_from-found :
    (left i start : ℕ) (ts : List Transport) (idx : ℕ) (t' : Transport)
    → reserve_from left i start ts ≡ some (idx, t')
    → (t : Transport) × (get_elem? ts idx ≡ some t) × (reserve_slot t ≡ some t')
unfolding reserve_from
reserve_from-found zero i start ts idx t' h = absurd (cc)
reserve_from-found (suc left) i start ts idx t' h =
    elim (Option-cases (get_elem? ts ((start + i) % length ts))) [
      | inl e ↦ absurd (ground arith)
      | inr (t, e) ↦ elim (Option-cases (reserve_slot t)) [
        | inl f ↦ reserve_from-found left (suc i) start ts idx t' (ground arith)
        | inr (u, f) ↦ (t, ground arith, ground arith)
      ]
    ]

pub reserve_locked-found :
    (p : Pool) (idx : ℕ) (t' : Transport)
    → reserve_locked p ≡ some (idx, t')
    → (t : Transport) × (get_elem? p.transports idx ≡ some t) × (reserve_slot t ≡ some t')
unfolding reserve_locked
reserve_locked-found p idx t' h =
    reserve_from-found (length p.transports) 0 (p.round_robin % length p.transports) p.transports
      idx t' (ground arith)

-- The usable transports are at most the maximum and the allowance, and every transport is within its limit.
pub record IsSound (p : Pool) : Type 0 where
  pub few : usable_count p.transports ≤ p.max_transports + p.rotation_overlap
  pub within : All WithinLimit p.transports

capacity_le : (p : Pool) → capacity p ≤ p.max_transports + p.rotation_overlap
unfolding capacity
capacity_le p = ground arith

get_full-IsSound : (p : Pool) → IsSound p → IsSound (get_full p).0
unfolding get_full
get_full-IsSound p s =
    ground (arith, usable_count-without_dead p.transports, All-without_dead p.transports s.within)

get_open-IsSound : (now : ℕ) (p : Pool) → IsSound p → IsSound (get_open now p).0
unfolding get_open
get_open-IsSound now p s = elim (Option-cases (reserve_locked p)) [
  | inl e ↦ elim (Bool-cases (leb (capacity p) (length p.transports + p.creating))) [
    | inl f ↦ rw (e, f, get_open) (get_full-IsSound p s)
    | inr f ↦ rw (e, f, get_open) (record { few = s.few; within = s.within })
  ]
  | inr ((idx, t'), e) ↦
      let (t, found, slot) = reserve_locked-found p idx t' e in
      let g = reserve_slot-granted t t' slot in
      let u : Transport = record t' { last_active = now } in
      rw (e, get_open)
        (record {
          few =
              omega (arith, usable_count-set p.transports idx t u found (ground (arith, g)), s.few);
          within = All-set p.transports idx u s.within (ground (arith, g));
        })
]

either-IsSound :
    (b : Bool) (x y : Pool × Begun) → IsSound x.0 → IsSound y.0 → IsSound (if b then x else y).0
either-IsSound true x y hx hy = hx
either-IsSound false x y hx hy = hy

pub get_begin-IsSound : (now : ℕ) (p : Pool) → IsSound p → IsSound (get_begin now p).0
unfolding get_begin
get_begin-IsSound now p s =
    either-IsSound p.closed (p, canceled) (get_open now p) s (get_open-IsSound now p s)

pub append_dialed-IsSound :
    (t : Transport) (p : Pool) → WithinLimit t → IsSound p → IsSound (append_dialed t p).0
unfolding append_dialed
append_dialed-IsSound t p w s = ground (
  arith,
  usable_count-append p.transports t,
  usable_count-le_length p.transports,
  capacity_le p,
  All-append WithinLimit p.transports (t ∷ []) s.within (w, tt),
)

pub top_up_begin-IsSound : (p : Pool) → IsSound p → IsSound (top_up_begin p).0
unfolding top_up_begin
top_up_begin-IsSound p s = ground arith

pub resize-IsSound : (least most : ℕ) (p : Pool) → IsSound p → IsSound (resize least most p).0
unfolding resize enforce_max
resize-IsSound least most p s =
    let high =
      (if ltb most (if ltb least 1 then 1 else least)
        then (if ltb least 1 then 1 else least)
        else most) in
    ground
      (arith, usable_count-enforce high 0 p.transports, All-enforce high 0 p.transports s.within)

pub cleanup-IsSound : (now : ℕ) (p : Pool) → IsSound p → IsSound (cleanup now p)
unfolding cleanup
cleanup-IsSound now p s = ground (
  arith,
  usable_count-without_idle now p.idle_timeout p.transports,
  All-without_idle now p.idle_timeout p.transports s.within,
)

pub close-IsSound : (p : Pool) → IsSound p → IsSound (close p)
unfolding close usable_count
close-IsSound p s = ground arith

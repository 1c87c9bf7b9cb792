-- ===== src/Pool/Shrink.antt =====
-- What resizing and cleaning take out of the pool: never a transport with streams.
use tamizdat.Pool.{
  Transport, Pool, usable_count, enforce, enforce_max, resize, without_idle, cleanup,
}
use tamizdat.Prelude.{
  List, ℕ, ◌∷◌, ◌≤◌, ◌≡◌, if◌then◌else◌, ◌<◌, not, ◌+◌, arith, ltb, ◌&&◌, suc, [], refl,
}

-- The open transports with streams, each with the number of its streams.
pub busy : List Transport → List (ℕ × ℕ)
busy [] = []
busy (t ∷ ts) =
    let rest = busy ts in
    if not t.is_closed && ltb 0 t.active_streams then (t.id, t.active_streams) ∷ rest else rest

pub usable_count-enforce :
    (most usable : ℕ) (ts : List Transport)
    → usable ≤ most
    → usable_count (enforce most usable ts) + usable ≤ most
unfolding enforce usable_count
usable_count-enforce most usable [] h = omega (arith, h)
usable_count-enforce most usable (t ∷ ts) h =
    ground (arith, usable_count-enforce most usable ts, usable_count-enforce most (suc usable) ts)

busy-enforce : (most usable : ℕ) (ts : List Transport) → busy (enforce most usable ts) ≡ busy ts
unfolding enforce busy
busy-enforce most usable [] = refl
busy-enforce most usable (t ∷ ts) =
    ground (arith, busy-enforce most usable ts, busy-enforce most (suc usable) ts)

pub usable_count-enforce_le :
    (most usable : ℕ) (ts : List Transport)
    → usable_count (enforce most usable ts) ≤ usable_count ts
unfolding enforce usable_count
usable_count-enforce_le most usable [] = omega arith
usable_count-enforce_le most usable (t ∷ ts) =
    ground
      (arith, usable_count-enforce_le most usable ts, usable_count-enforce_le most (suc usable) ts)

busy-without_idle :
    (now timeout : ℕ) (ts : List Transport) → busy (without_idle now timeout ts) ≡ busy ts
unfolding without_idle busy
busy-without_idle now timeout [] = refl
busy-without_idle now timeout (t ∷ ts) = ground (arith, busy-without_idle now timeout ts)

-- `cleanup` keeps every open transport that has streams, in its place among the others.
pub busy-cleanup : (now : ℕ) (p : Pool) → busy (cleanup now p).transports ≡ busy p.transports
unfolding cleanup
busy-cleanup now p = busy-without_idle now p.idle_timeout p.transports

-- The bounds that `resize` sets.
abbrev pub new_low : ℕ → ℕ
new_low least = if ltb least 1 then 1 else least

abbrev pub new_high : ℕ → ℕ → ℕ
new_high least most = if ltb most (new_low least) then new_low least else most

-- `resize` to a smaller maximum leaves at most that many usable transports, and keeps every open
-- transport that has streams with its streams.
pub resize-shrinks :
    (least most : ℕ) (p : Pool)
    → new_high least most < p.max_transports
    → (usable_count (resize least most p).0.transports ≤ new_high least most)
      × (busy (resize least most p).0.transports ≡ busy p.transports)
unfolding resize enforce_max
resize-shrinks least most p h = (
  ground (arith, usable_count-enforce (new_high least most) 0 p.transports),
  ground (arith, busy-enforce (new_high least most) 0 p.transports),
)

-- ===== src/Handshakes.antt =====
-- The client's limit on handshakes: pkg/tamizdat/handshake_limiter.go, `handshakeLimiter`.
-- A key, which is a server's name, is a number. Times are nanoseconds and the clock is an argument. The list of
-- keys in the order of their use holds each key once, so it is the list and its index in one.
pub mod Recency
pub mod Memory
pub mod Rate
mod Tests
use tamizdat.Prelude.{
  ℕ, List, Option, if◌then◌else◌, ◌∷◌, Bool, none, suc, [], ◌==◌, ltb, false, some, length, ◌+◌,
  true, ◌++◌, zero, get_or, ◌-◌,
}
use tamizdat.Prelude.Assoc.{Assoc, lookup, erase, insert}

-- 20 s.
abbrev pub default_limit : ℕ
default_limit = 3

abbrev pub default_window : ℕ
default_window = 20000000000

abbrev pub limiter_map_cap : ℕ
limiter_map_cap = 1024

-- `handshakeLimiter`.
pub record Limiter : Type 0 where
  pub limit : ℕ
  pub window : ℕ
  pub events : Assoc (List ℕ)
  pub lru : List ℕ
  pub map_cap : ℕ

-- `newHandshakeLimiterWithConfig`, of numbers that are not negative.
pub new_limiter : ℕ → ℕ → Limiter
new_limiter limit window = record {
  limit = if limit == 0 then default_limit else limit;
  window = if window == 0 then default_window else window;
  events = [];
  lru = [];
  map_cap = limiter_map_cap;
}

-- The loop that keeps the times after `now - window`.
pub recent : ℕ → ℕ → List ℕ → List ℕ
recent now window [] = []
recent now window (t ∷ ts) =
    let rest = recent now window ts in if ltb now (t + window) then t ∷ rest else rest

-- A key of the index.
pub is_listed : ℕ → List ℕ → Bool
is_listed key [] = false
is_listed key (k ∷ ks) = if k == key then true else is_listed key ks

-- The list without an element.
pub remove : ℕ → List ℕ → List ℕ
remove key [] = []
remove key (k ∷ ks) = if k == key then ks else k ∷ remove key ks

-- `Back`: the list before the last element, and that element.
pub split_back : List ℕ → Option (List ℕ × ℕ)
split_back [] = none
split_back (k ∷ ks) = elim (split_back ks) [
  | none ↦ some ([], k)
  | some (front, back) ↦ some (k ∷ front, back)
]

-- The loop that evicts; each round takes an element out, so as many rounds as elements do.
pub evict_rounds : ℕ → Limiter → Limiter
unfolding split_back
evict_rounds zero l = l
evict_rounds (suc left) l =
    let shorter : Limiter = elim (split_back l.lru) [
      | none ↦ l
      | some (front, back) ↦
          evict_rounds left (record l { lru = front; events = erase back l.events })
    ] in
    if ltb l.map_cap (length l.lru) then shorter else l

-- `touchLRULocked`.
pub touch_lru : ℕ → Limiter → Limiter
unfolding is_listed remove evict_rounds
touch_lru key l =
    if is_listed key l.lru
    then record l { lru = key ∷ remove key l.lru }
    else evict_rounds (suc (length l.lru)) (record l { lru = key ∷ l.lru })

-- `events[key]`, empty for a missing key.
abbrev pub times_of : Option (List ℕ) → List ℕ
times_of none = []
times_of (some ts) = ts

-- `reserveOrDelay`: the limiter, and the wait, 0 for a handshake that may go on.
pub reserve : ℕ → ℕ → Limiter → Limiter × ℕ
unfolding recent touch_lru
reserve now key l =
    let keep = recent now l.window (times_of (lookup key l.events)) in
    if ltb (length keep) l.limit
    then (touch_lru key (record l { events = insert key (keep ++ now ∷ []) l.events }), 0)
    else (
      touch_lru key (record l { events = insert key keep l.events }),
      get_or keep 0 0 + l.window - now,
    )

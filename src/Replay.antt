-- ===== src/Replay.antt =====
-- The replay guard of the server: pkg/tamizdat/replay_guard.go, `replayGuard`.
-- A replay key of 16 bytes is the number that it spells. Times are nanoseconds, with 0 for Go's zero
-- `time.Time`, and the clock is an argument. `container/heap` is the list of its entries in the order
-- in which `heap.Pop` gives them out: earliest first, and those of one time as they came in.
pub mod Heap
pub mod Eviction
pub mod Invariant
pub mod History
mod Tests
use tamizdat.Replay.Heap.{Entry, heap_push, drop_stale}
use tamizdat.Prelude.{
  ℕ, length, if◌then◌else◌, Option, List, [], Bool, ◌==◌, some, leb, ◌-◌, ◌&&◌, none, ◌∷◌, ◌+◌,
  false, true, ltb, not, ◌/◌,
}
use tamizdat.Prelude.Assoc.{Assoc, retain, lookup, insert, erase}

-- Five minutes.
abbrev pub default_replay_window : ℕ
default_replay_window = 300000000000

abbrev pub replay_hard_cap : ℕ
replay_hard_cap = 65536

-- `replayGuard`, with the three counters that it publishes. A `window` or `hard_cap` of 0 stands for
-- any that is not positive.
pub record Guard : Type 0 where
  pub seen : Assoc ℕ
  pub eviction_heap : List Entry
  pub window : ℕ
  pub hard_cap : ℕ
  pub last_reap : ℕ
  pub hits : ℕ
  pub evictions : ℕ
  pub window_size : ℕ

-- `newReplayGuard`.
pub new_guard : ℕ → Guard
new_guard window = record {
  seen = [];
  eviction_heap = [];
  window = if window == 0 then default_replay_window else window;
  hard_cap = replay_hard_cap;
  last_reap = 0;
  hits = 0;
  evictions = 0;
  window_size = 0;
}

-- `now.Sub(v) > g.window` is false: the entry is still inside the window. A clock that ran back
-- gives a negative difference in Go and 0 here, and both are inside.
abbrev pub is_fresh : ℕ → ℕ → ℕ → Bool
is_fresh now window t = leb (now - t) window

pub publish_window_size : Guard → Guard
publish_window_size g = record g { window_size = length g.seen }

-- `reapLocked` behind its two early tests, with `evicted` counted by the entries gone.
pub reap_all : ℕ → Guard → Guard
reap_all now g =
    let seen' = retain (is_fresh now g.window) g.seen in
    let evicted = length g.seen - length seen' in
    record g {
      seen = seen';
      eviction_heap = drop_stale now g.window g.eviction_heap;
      last_reap = now;
      evictions = g.evictions + evicted;
      window_size = if ltb 0 evicted then length seen' else g.window_size;
    }

-- `if g.window <= 0 { g.window = defaultReplayWindow }`.
abbrev fix_window : Guard → Guard
fix_window g = record g { window = if g.window == 0 then default_replay_window else g.window }

-- `reapLocked` behind the default of the window.
reap_unless_recent : ℕ → Bool → Guard → Guard
reap_unless_recent now throttle g =
    if throttle && (not (g.last_reap == 0) && leb (now - g.last_reap) (g.window / 4))
    then g
    else reap_all now g

-- `reapLocked`.
pub reap : ℕ → Bool → Guard → Guard
unfolding reap_unless_recent reap_all
reap now throttle g = reap_unless_recent now throttle (fix_window g)

-- One round of `evictOverCapLocked`: the entry deletes its key only if it is the key's latest.
pub evict_one : Entry → Assoc ℕ → Assoc ℕ
evict_one (t, key) seen = elim (lookup key seen) [
  | none ↦ seen
  | some inserted ↦ if inserted == t then erase key seen else seen
]

-- The loop of `evictOverCapLocked`; it ends when the map is within the cap or the heap is empty.
pub evict : ℕ → Assoc ℕ → List Entry → Assoc ℕ × List Entry
unfolding evict_one
evict cap seen [] = (seen, [])
evict cap seen (e ∷ heap) =
    let rest = evict cap (evict_one e seen) heap in
    if leb (length seen) cap then (seen, e ∷ heap) else rest

pub evict_to : ℕ → Guard → Guard
unfolding evict
evict_to cap g =
    let (seen', heap') = evict cap g.seen g.eviction_heap in
    record g {
      hard_cap = cap;
      seen = seen';
      eviction_heap = heap';
      evictions = g.evictions + (length g.seen - length seen');
    }

-- `evictOverCapLocked`, with the default of the cap.
pub evict_over_cap : Guard → Guard
unfolding evict_to
evict_over_cap g = evict_to (if g.hard_cap == 0 then replay_hard_cap else g.hard_cap) g

-- `g.seen[key] = t`, the push and the eviction that `Insert` and `checkKey` end with.
pub record_key : ℕ → ℕ → Guard → Guard
unfolding evict_over_cap publish_window_size
record_key key t g = publish_window_size (
    evict_over_cap
      (record g { seen = insert key t g.seen; eviction_heap = heap_push (t, key) g.eviction_heap }))

-- `Seen`.
pub seen_key : ℕ → Guard → ℕ → Guard × Bool
unfolding reap
seen_key now g0 key =
    let g = reap now false g0 in
    elim (lookup key g.seen) [ some _ ↦ (record g { hits = g.hits + 1 }, true) | none ↦ (g, false) ]

-- `Insert`.
pub insert_key : ℕ → Guard → ℕ → ℕ → Guard
unfolding reap record_key
insert_key now g key t0 = let t = if t0 == 0 then now else t0 in record_key key t (reap t true g)

-- `checkKey` behind its sweep.
check_swept : ℕ → ℕ → Guard → Guard × Bool
unfolding record_key
check_swept now key g = elim (lookup key g.seen) [
  | some _ ↦ (record g { hits = g.hits + 1 }, false)
  | none ↦ (record_key key now g, true)
]

-- `checkKey`: true for a key that is new inside the window, which is then marked.
pub check_key : ℕ → Guard → ℕ → Guard × Bool
unfolding reap check_swept
check_key now g key = check_swept now key (reap now false g)

-- `checkV1`, on a guard that may be nil: then every key passes.
pub check_v1 : ℕ → Option Guard → ℕ → Option Guard × Bool
unfolding check_key
check_v1 now none key = (none, true)
check_v1 now (some g) key = let (g', fresh) = check_key now g key in (some g', fresh)

-- `size`.
pub size : Option Guard → ℕ
size none = 0
size (some g) = length g.seen

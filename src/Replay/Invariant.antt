-- ===== src/Replay/Invariant.antt =====
-- The invariant of the guard, and which keys it lets through.
use tamizdat.Replay.Heap.{
  SortedFrom, heap_push, heap_push-SortedFrom, In-heap_push, In-heap_push_self,
  drop_stale-SortedFrom, In-drop_stale,
}
use tamizdat.Replay.Eviction.{
  Covered, evict-Distinct, evict-Covered, length-evict, evict-SortedFrom,
}
use tamizdat.Replay.{
  Guard, new_guard, is_fresh, fix_window, reap_all, reap, evict_over_cap, record_key,
  publish_window_size, seen_key, insert_key, check_key, evict_to, reap_unless_recent, check_swept,
}
use tamizdat.Prelude.Assoc.{
  Distinct, lookup, kept, retain-Distinct, lookup-retain, length-retain_le, insert, insert-Distinct,
  lookup-insert,
}
use tamizdat.Prelude.{
  ℕ, ◌≡◌, length, arith, Option, Bool, ◌<◌, ◌≤◌, some, ◌-◌, none, ◌⊎◌, false, inl, ◌+◌, true, inr,
  Option-cases, ◌↔◌, sym, ◌∙◌, ap,
}
use native.Mathlib.Decide.{ℕ_discrete}

pub record Inv (g : Guard) : Type 0 where
  pub distinct : Distinct g.seen
  pub sorted : SortedFrom 0 g.eviction_heap
  pub covered : Covered g.seen g.eviction_heap
  pub capped : length g.seen ≤ g.hard_cap
  pub cap_positive : 0 < g.hard_cap
  pub window_positive : 0 < g.window

pub new_guard-Inv : (window : ℕ) → Inv (new_guard window)
unfolding new_guard lookup
new_guard-Inv window = record {
  distinct = tt;
  sorted = tt;
  covered = λ key t e. absurd (cc);
  capped = omega arith;
  cap_positive = omega arith;
  window_positive = ground arith;
}

-- What is left of the map is what is inside the window.
pub lookup-reap_all :
    (now : ℕ) (g : Guard) (key : ℕ)
    → Inv g
    → lookup key (reap_all now g).seen ≡ kept (is_fresh now g.window) (lookup key g.seen)
unfolding reap_all
lookup-reap_all now g key v = lookup-retain (is_fresh now g.window) key g.seen v.distinct

pub kept-some :
    (now window : ℕ) (o : Option ℕ) (t : ℕ)
    → kept (is_fresh now window) o ≡ some t
    → (o ≡ some t) × (now - t ≤ window)
kept-some now window none t e = absurd (cc)
kept-some now window (some u) t e = ground arith

pub reap_all-Inv : (now : ℕ) (g : Guard) → Inv g → Inv (reap_all now g)
unfolding reap_all
reap_all-Inv now g v = record {
  distinct = retain-Distinct (is_fresh now g.window) g.seen v.distinct;
  sorted = drop_stale-SortedFrom 0 now g.window g.eviction_heap v.sorted;
  covered = λ key t e.
      let (e', young) =
        kept-some now g.window (lookup key g.seen) t
          (rw (← lookup-retain (is_fresh now g.window) key g.seen v.distinct) e) in
      In-drop_stale now g.window t key g.eviction_heap young (v.covered key t e');
  capped = omega (arith, length-retain_le (is_fresh now g.window) g.seen, v.capped);
  cap_positive = v.cap_positive;
  window_positive = v.window_positive;
}

fix_window_id : (g : Guard) → Inv g → fix_window g ≡ g
fix_window_id g v = ground (arith, v.window_positive)

-- Where the invariant holds, the defaults change nothing.
pub reap_lem :
    (now : ℕ) (throttle : Bool) (g : Guard)
    → Inv g
    → (reap now throttle g ≡ g) ⊎ (reap now throttle g ≡ reap_all now g)
reap_lem now throttle g v = unfold reap reap_unless_recent in rw (fix_window_id g v) (ground arith)

pub reap_now : (now : ℕ) (g : Guard) → Inv g → reap now false g ≡ reap_all now g
reap_now now g v = unfold reap reap_unless_recent in ap (reap_all now) (fix_window_id g v)

pub reap-Inv : (now : ℕ) (throttle : Bool) (g : Guard) → Inv g → Inv (reap now throttle g)
reap-Inv now throttle g v = elim (reap_lem now throttle g v) [
  | inl e ↦ rw e v
  | inr e ↦ rw e (reap_all-Inv now g v)
]

evict_to-Inv :
    (cap : ℕ) (g : Guard)
    → Distinct g.seen
    → SortedFrom 0 g.eviction_heap
    → Covered g.seen g.eviction_heap
    → 0 < cap
    → 0 < g.window
    → Inv (evict_to cap g)
unfolding evict_to
evict_to-Inv cap g d s c pos w = record {
  distinct = evict-Distinct cap g.seen g.eviction_heap d;
  sorted = evict-SortedFrom 0 cap g.seen g.eviction_heap s;
  covered = evict-Covered cap g.seen g.eviction_heap d c;
  capped = omega (arith, length-evict cap g.seen g.eviction_heap d c);
  cap_positive = pos;
  window_positive = w;
}

-- The state between the write of a key and the eviction.
abbrev pub with_key : ℕ → ℕ → Guard → Guard
with_key key t g = record g {
  seen = insert key t g.seen;
  eviction_heap = heap_push (t, key) g.eviction_heap;
}

with_key-Covered :
    (key t : ℕ) (g : Guard)
    → Inv g
    → Covered (with_key key t g).seen (with_key key t g).eviction_heap
with_key-Covered key t g v j u e = elim (ℕ_discrete key j) [
  | yes same ↦ ground (arith, lookup-insert key j t g.seen, In-heap_push_self t key g.eviction_heap)
  | no other ↦
      In-heap_push t key u j g.eviction_heap
        (v.covered j u (ground (arith, lookup-insert key j t g.seen)))
]

pub record_key_lem :
    (key t : ℕ) (g : Guard)
    → Inv g
    → record_key key t g ≡ publish_window_size (evict_to g.hard_cap (with_key key t g))
record_key_lem key t g v = unfold record_key evict_over_cap in ground (arith, v.cap_positive)

pub record_key-Inv : (key t : ℕ) (g : Guard) → Inv g → Inv (record_key key t g)
record_key-Inv key t g v =
    let w =
      evict_to-Inv g.hard_cap (with_key key t g) (insert-Distinct key t g.seen v.distinct)
        (heap_push-SortedFrom 0 t key g.eviction_heap (omega arith) v.sorted)
        (with_key-Covered key t g v) v.cap_positive v.window_positive in
    rw (record_key_lem key t g v) (
      unfold publish_window_size in
      (record {
        distinct = w.distinct;
        sorted = w.sorted;
        covered = w.covered;
        capped = w.capped;
        cap_positive = w.cap_positive;
        window_positive = w.window_positive;
      }))

hit-Inv : (g : Guard) → Inv g → Inv (record g { hits = g.hits + 1 })
hit-Inv g w = record {
  distinct = w.distinct;
  sorted = w.sorted;
  covered = w.covered;
  capped = w.capped;
  cap_positive = w.cap_positive;
  window_positive = w.window_positive;
}

-- So does `Insert`, with the throttled sweep of the window.
pub insert_key-Inv : (now : ℕ) (g : Guard) (key t : ℕ) → Inv g → Inv (insert_key now g key t)
unfolding insert_key
insert_key-Inv now g key t v = record_key-Inv key _ _ (reap-Inv _ true g v)

pub seen_key-Inv : (now : ℕ) (g : Guard) (key : ℕ) → Inv g → Inv (seen_key now g key).0
unfolding seen_key
seen_key-Inv now g key v =
    let w = reap-Inv now false g v in
    elim (Option-cases (lookup key (reap now false g).seen)) [
      | inl e ↦ rw (e, seen_key) w
      | inr (t, e) ↦ rw (e, seen_key) (hit-Inv (reap now false g) w)
    ]

-- The two ways through `checkKey`, behind the sweep.
pub data Checked (now : ℕ) (g : Guard) (key : ℕ) : Type 0 where
  hit :
      (t : ℕ)
      → lookup key (reap_all now g).seen ≡ some t
      → check_key now g key ≡ (record (reap_all now g) { hits = (reap_all now g).hits + 1 }, false)
      → Checked now g key
  marked :
      lookup key (reap_all now g).seen ≡ none
      → check_key now g key ≡ (record_key key now (reap_all now g), true)
      → Checked now g key

behind_sweep :
    (now : ℕ) (g : Guard) (key : ℕ)
    → Inv g
    → check_key now g key ≡ check_swept now key (reap_all now g)
behind_sweep now g key v = unfold check_key in ap (check_swept now key) (reap_now now g v)

check_swept_hit :
    (now key t : ℕ) (g : Guard)
    → lookup key g.seen ≡ some t
    → check_swept now key g ≡ (record g { hits = g.hits + 1 }, false)
unfolding check_swept
check_swept_hit now key t g e = rw (e, check_swept)

check_swept_new :
    (now key : ℕ) (g : Guard)
    → lookup key g.seen ≡ none
    → check_swept now key g ≡ (record_key key now g, true)
check_swept_new now key g e = unfold check_swept in rw (e, check_swept)

pub check_key_cases : (now : ℕ) (g : Guard) (key : ℕ) → Inv g → Checked now g key
check_key_cases now g key v = elim (Option-cases (lookup key (reap_all now g).seen)) [
  | inl e ↦ marked e (behind_sweep now g key v ∙ check_swept_new now key (reap_all now g) e)
  | inr (t, e) ↦ hit t e (behind_sweep now g key v ∙ check_swept_hit now key t (reap_all now g) e)
]

-- `checkKey` refuses a key exactly when the map holds it from inside the window.
pub check_key-refuses :
    (now : ℕ) (g : Guard) (key : ℕ)
    → Inv g
    → ((check_key now g key).1 ≡ false)
      ↔ ((t : ℕ) × (lookup key g.seen ≡ some t) × (now - t ≤ g.window))
check_key-refuses now g key v = (refused (check_key_cases now g key v), holds)
  where
    refused :
        Checked now g key
        → (check_key now g key).1 ≡ false
        → (t : ℕ) × (lookup key g.seen ≡ some t) × (now - t ≤ g.window)
    refused (hit t q _) e =
        let (q', young) =
          kept-some now g.window (lookup key g.seen) t (sym (lookup-reap_all now g key v) ∙ q) in
        (t, q', young)
    refused (marked q s) e = absurd (cc (s))

    holds :
        ((t : ℕ) × (lookup key g.seen ≡ some t) × (now - t ≤ g.window))
        → (check_key now g key).1 ≡ false
    holds (t, q, young) = elim (check_key_cases now g key v) [
      | hit _ _ s ↦ ap (λ (r : Guard × Bool). r.1) s
      | marked n s ↦ absurd (ground (arith, lookup-reap_all now g key v))
    ]

-- `checkKey` keeps the map distinct, within its cap and covered by the sorted heap.
pub check_key-Inv : (now : ℕ) (g : Guard) (key : ℕ) → Inv g → Inv (check_key now g key).0
check_key-Inv now g key v = elim (check_key_cases now g key v) [
  | hit t e s ↦ rw s (hit-Inv (reap_all now g) (reap_all-Inv now g v))
  | marked e s ↦ rw s (record_key-Inv key now (reap_all now g) (reap_all-Inv now g v))
]

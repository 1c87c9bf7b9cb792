-- ===== src/Replay/History.antt =====
-- Whole histories of checks: a key that was let through is refused for as long as the window holds.
use tamizdat.Prelude.{
  [], ◌∷◌, List, ℕ, ◌+◌, length, ◌≡◌, ◌<◌, ◌≤◌, ap, ◌∙◌, refl, arith, ◌-◌, true, some, false,
}
use tamizdat.Replay.{
  Guard, check_key, record_key, reap_all, publish_window_size, evict_to, is_fresh,
}
use tamizdat.Replay.Invariant.{
  hit, marked, check_key_cases, reap_all-Inv, Inv, check_key-Inv, check_key-refuses,
  lookup-reap_all, record_key_lem,
}
use tamizdat.Replay.Eviction.{evict_fits}
use tamizdat.Prelude.Assoc.{
  insert, length-retain_le, Assoc, length-insert_le, lookup, lookup-insert, lookup-insert_self,
}

-- Checks at given times, oldest first.
pub run_checks : Guard → List (ℕ × ℕ) → Guard
run_checks g [] = g
run_checks g ((now, key) ∷ calls) = run_checks (check_key now g key).0 calls

-- Below the cap, nothing is evicted.
record_key_below :
    (key t : ℕ) (g : Guard)
    → Inv g
    → length g.seen < g.hard_cap
    → (record_key key t g).seen ≡ insert key t g.seen
record_key_below key t g v h =
    ap (λ (s : Guard). s.seen) (record_key_lem key t g v)
    ∙ unfold publish_window_size evict_to in
      ap (λ (r : Assoc ℕ × List (ℕ × ℕ)). r.0)
        (evict_fits g.hard_cap (insert key t g.seen) _
          (omega (arith, length-insert_le key t g.seen)))

-- What one check leaves alone.
record Steady (g s : Guard) : Type 0 where
  same_window : s.window ≡ g.window
  same_cap : s.hard_cap ≡ g.hard_cap
  at_most_one : length s.seen ≤ length g.seen + 1

-- The map after a check below the cap: the sweep, and the key where it was new.
abbrev swept : ℕ → Guard → Guard
swept now g = reap_all now g

swept-Steady :
    (now : ℕ) (g : Guard)
    → (length (swept now g).seen ≤ length g.seen)
      × ((swept now g).window ≡ g.window)
      × ((swept now g).hard_cap ≡ g.hard_cap)
unfolding reap_all
swept-Steady now g = (length-retain_le (is_fresh now g.window) g.seen, refl, refl)

record_key-Steady :
    (key t : ℕ) (g : Guard) → Inv g → length g.seen < g.hard_cap → Steady g (record_key key t g)
record_key-Steady key t g v h = record {
  same_window =
      ap (λ (s : Guard). s.window) (record_key_lem key t g v)
      ∙ unfold publish_window_size evict_to in refl;
  same_cap =
      ap (λ (s : Guard). s.hard_cap) (record_key_lem key t g v)
      ∙ unfold publish_window_size evict_to in refl;
  at_most_one = rw (record_key_below key t g v h) (length-insert_le key t g.seen);
}

check_key-Steady :
    (now : ℕ) (g : Guard) (key : ℕ)
    → Inv g
    → length g.seen < g.hard_cap
    → Steady g (check_key now g key).0
check_key-Steady now g key v h =
    let (len, win, cap) = swept-Steady now g in
    elim (check_key_cases now g key v) [
      | hit t e s ↦
          rw s (record { same_window = win; same_cap = cap; at_most_one = omega (arith, len) })
      | marked e s ↦
          let k =
            record_key-Steady key now (swept now g) (reap_all-Inv now g v)
              (omega (arith, len, cap)) in
          rw s (record {
            same_window = k.same_window ∙ win;
            same_cap = k.same_cap ∙ cap;
            at_most_one = omega (arith, k.at_most_one, len);
          })
    ]

-- A key inside the window outlives a check below the cap, with its time.
check_key-keeps :
    (now : ℕ) (g : Guard) (other key t : ℕ)
    → Inv g
    → length g.seen < g.hard_cap
    → now - t ≤ g.window
    → lookup key g.seen ≡ some t
    → lookup key (check_key now g other).0.seen ≡ some t
check_key-keeps now g other key t v h young e =
    let (len, win, cap) = swept-Steady now g in
    let still : lookup key (swept now g).seen ≡ some t =
      ground (arith, lookup-reap_all now g key v) in
    elim (check_key_cases now g other v) [
      | hit u f s ↦ rw s still
      | marked f s ↦
          rw
            (
              s,
              record_key_below other now (swept now g) (reap_all-Inv now g v)
                  (omega (arith, len, cap)),
            )
            (ground (arith, lookup-insert other key now (swept now g).seen))
    ]

-- Every check of the history falls inside the window of an entry made at `t`.
abbrev pub Within : ℕ → ℕ → List (ℕ × ℕ) → Type 0
Within t window [] = Unit {0}
Within t window ((now, key) ∷ calls) = (now - t ≤ window) × Within t window calls

record Held (key t : ℕ) (g s : Guard) : Type 0 where
  inv : Inv s
  same_window : s.window ≡ g.window
  stored : lookup key s.seen ≡ some t

run_checks-Held :
    (key t : ℕ) (g : Guard) (calls : List (ℕ × ℕ))
    → Inv g
    → lookup key g.seen ≡ some t
    → Within t g.window calls
    → length g.seen + length calls ≤ g.hard_cap
    → Held key t g (run_checks g calls)
unfolding run_checks
run_checks-Held key t g [] v e w h = record { inv = v; same_window = refl; stored = e }
run_checks-Held key t g ((now, other) ∷ calls) v e w h =
    let s = (check_key now g other).0 in
    let steady = check_key-Steady now g other v (omega arith) in
    let rest =
      run_checks-Held key t s calls (check_key-Inv now g other v)
        (check_key-keeps now g other key t v (omega arith) w.0 e) (rw steady.same_window w.1)
        (omega (arith, steady.same_cap, steady.at_most_one)) in
    record {
      inv = rest.inv;
      same_window = rest.same_window ∙ steady.same_window;
      stored = rest.stored;
    }

-- A key that was let through is in the map, with the time of the check.
let_through :
    (t : ℕ) (g : Guard) (key : ℕ)
    → Inv g
    → length g.seen < g.hard_cap
    → (check_key t g key).1 ≡ true
    → lookup key (check_key t g key).0.seen ≡ some t
let_through t g key v h e =
    let (len, win, cap) = swept-Steady t g in
    elim (check_key_cases t g key v) [
      | hit u f s ↦ absurd (cc (s))
      | marked f s ↦
          rw (s, record_key_below key t (swept t g) (reap_all-Inv t g v) (omega (arith, len, cap)))
            (lookup-insert_self key t (swept t g).seen)
    ]

-- No replay inside the window: after a check lets a key through, any number of checks of any keys,
-- up to the cap of the map, leaves it refused for as long as the window lasts.
pub replay_refused :
    (t : ℕ) (g : Guard) (key : ℕ) (calls : List (ℕ × ℕ)) (now : ℕ)
    → Inv g
    → (check_key t g key).1 ≡ true
    → Within t g.window calls
    → length g.seen + 1 + length calls ≤ g.hard_cap
    → now - t ≤ g.window
    → (check_key now (run_checks (check_key t g key).0 calls) key).1 ≡ false
replay_refused t g key calls now v new w h young =
    let steady = check_key-Steady t g key v (omega arith) in
    let held =
      run_checks-Held key t (check_key t g key).0 calls (check_key-Inv t g key v)
        (let_through t g key v (omega arith) new) (rw steady.same_window w)
        (omega (arith, steady.same_cap, steady.at_most_one)) in
    (check_key-refuses now _ key held.inv).1
      (t, held.stored, omega (arith, held.same_window, steady.same_window))

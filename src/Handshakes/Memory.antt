-- ===== src/Handshakes/Memory.antt =====
-- The table of times and the list of keys stay in step, and within the cap.
use tamizdat.Handshakes.{
  limiter_map_cap, Limiter, new_limiter, recent, is_listed, remove, split_back, evict_rounds,
  touch_lru, times_of, reserve,
}
use tamizdat.Prelude.{
  List, Option, ℕ, ◌∷◌, Bool, ◌≡◌, length, false, if◌then◌else◌, true, arith, suc, some, ◌==◌,
  Option-cases, [], none, inl, inr, ◌≢◌, Bool-cases, ◌≤◌, ltb, ◌+◌, ◌<◌, zero, refl, ◌++◌,
}
use tamizdat.Prelude.Assoc.{
  Distinct, lookup, erase, insert, erase-Distinct, insert-Distinct, lookup-erase, lookup-insert,
  length-erase, length-insert_new, length-insert_old,
}

abbrev pub NoRepeat : List ℕ → Type 0
NoRepeat [] = Unit {0}
NoRepeat (k ∷ ks) = (is_listed k ks ≡ false) × NoRepeat ks

abbrev pub present {ℓ} : {V : Type ℓ} → Option V → Bool
present none = false
present (some v) = true

pub is_listed-remove :
    (k j : ℕ) (ks : List ℕ)
    → NoRepeat ks
    → is_listed j (remove k ks) ≡ (if k == j then false else is_listed j ks)
unfolding is_listed remove
is_listed-remove k j [] u = ground arith
is_listed-remove k j (x ∷ ks) u = ground (arith, is_listed-remove k j ks u.1)

length-remove :
    (k : ℕ) (ks : List ℕ) → is_listed k ks ≡ true → suc (length (remove k ks)) ≡ length ks
unfolding is_listed remove
length-remove k [] h = absurd (cc)
length-remove k (x ∷ ks) h = ground (arith, length-remove k ks)

remove-NoRepeat : (k : ℕ) (ks : List ℕ) → NoRepeat ks → NoRepeat (remove k ks)
unfolding is_listed remove
remove-NoRepeat k [] u = tt
remove-NoRepeat k (x ∷ ks) u = ground (arith, remove-NoRepeat k ks u.1, is_listed-remove k x ks u.1)

-- What `split_back` gives.
record Parted (ks front : List ℕ) (back : ℕ) : Type 0 where
  size : length ks ≡ suc (length front)
  members : (j : ℕ) → is_listed j ks ≡ (if back == j then true else is_listed j front)
  whole : NoRepeat ks → NoRepeat front × (is_listed back front ≡ false)

split_back_cons : (x : ℕ) (ks : List ℕ) → split_back (x ∷ ks) ≢ none
unfolding split_back
split_back_cons x ks = elim (Option-cases (split_back ks)) [
  | inl e ↦ λ h. ground arith
  | inr ((f, b), e) ↦ λ h. ground arith
]

split_back-Parted :
    (ks front : List ℕ) (back : ℕ) → split_back ks ≡ some (front, back) → Parted ks front back
unfolding split_back is_listed
split_back-Parted [] front back h = absurd (cc)
split_back-Parted (k ∷ []) front back h = record {
  size = ground arith;
  members = λ j. ground arith;
  whole = λ u. ground arith;
}
split_back-Parted (k ∷ x ∷ ks) front back h = elim (Option-cases (split_back (x ∷ ks))) [
  | inl e ↦ absurd (split_back_cons x ks e)
  | inr ((f, b), e) ↦
      let r = split_back-Parted (x ∷ ks) f b e in
      record {
        size = ground (arith, r.size);
        members = λ j. ground (arith, r.members j);
        whole = λ u. ground (arith, r.whole u.1, r.members k);
      }
]

pub record IsTidy (l : Limiter) : Type 0 where
  pub keys_distinct : Distinct l.events
  pub no_repeat : NoRepeat l.lru
  pub in_step : (k : ℕ) → is_listed k l.lru ≡ present (lookup k l.events)
  pub same_size : length l.events ≡ length l.lru

-- One eviction, of the last key.
evicted-IsTidy :
    (l : Limiter) (front : List ℕ) (back : ℕ)
    → split_back l.lru ≡ some (front, back)
    → IsTidy l
    → IsTidy (record l { lru = front; events = erase back l.events })
evicted-IsTidy l front back e t =
    let r = split_back-Parted l.lru front back e in
    let w = r.whole t.no_repeat in
    let here = t.in_step back in
    elim (Option-cases (lookup back l.events)) [
      | inl f ↦ absurd (ground (arith, r.members back, here))
      | inr (ts, f) ↦ record {
        keys_distinct = erase-Distinct back l.events t.keys_distinct;
        no_repeat = w.0;
        in_step = λ k.
            ground
              (arith, t.in_step k, r.members k, w.1, lookup-erase back k l.events t.keys_distinct);
        same_size = omega (arith, length-erase back ts l.events f, r.size, t.same_size);
      }
    ]

evict_rounds-IsTidy : (left : ℕ) (l : Limiter) → IsTidy l → IsTidy (evict_rounds left l)
unfolding evict_rounds
evict_rounds-IsTidy zero l t = t
evict_rounds-IsTidy (suc left) l t = elim (Bool-cases (ltb l.map_cap (length l.lru))) [
  | inr e ↦ rw e t
  | inl e ↦ elim (Option-cases (split_back l.lru)) [
    | inl f ↦ rw (e, f, evict_rounds) t
    | inr ((front, back), f) ↦
        rw (e, f, evict_rounds) (evict_rounds-IsTidy left _ (evicted-IsTidy l front back f t))
  ]
]

-- As many rounds as elements bring the list within the cap.
evict_rounds-within :
    (left : ℕ) (l : Limiter)
    → length l.lru ≤ left + l.map_cap
    → (length (evict_rounds left l).lru ≤ l.map_cap) × ((evict_rounds left l).map_cap ≡ l.map_cap)
unfolding evict_rounds
evict_rounds-within zero l h = (omega arith, refl)
evict_rounds-within (suc left) l h = elim (Bool-cases (ltb l.map_cap (length l.lru))) [
  | inr e ↦ rw e (ground arith, refl)
  | inl e ↦ elim (Option-cases (split_back l.lru)) [
    | inl f ↦ absurd (no_back l.lru f (ground arith))
    | inr ((front, back), f) ↦
        let r = split_back-Parted l.lru front back f in
        rw (e, f, evict_rounds)
          (evict_rounds-within left (record l { lru = front; events = erase back l.events })
            (omega (arith, r.size)))
  ]
]
  where
    no_back : (ks : List ℕ) → split_back ks ≡ none → 0 < length ks → ⊥
    no_back [] e n = omega arith
    no_back (x ∷ ks) e n = split_back_cons x ks e

-- The key's size in the table after a write, by whether it was listed.
length-insert_listed :
    (key : ℕ) (ts : List ℕ) (l : Limiter)
    → IsTidy l
    → length (insert key ts l.events)
      ≡ (if is_listed key l.lru then length l.lru else suc (length l.lru))
length-insert_listed key ts l t = elim (Option-cases (lookup key l.events)) [
  | inl e ↦ ground (arith, t.in_step key, t.same_size, length-insert_new key ts l.events)
  | inr (old, e) ↦ ground (arith, t.in_step key, t.same_size, length-insert_old key ts old l.events)
]

-- A key that is not listed, put in front of the list.
abbrev pub pushed : ℕ → List ℕ → Limiter → Limiter
pushed key ts l = record l { events = insert key ts l.events; lru = key ∷ l.lru }

pub pushed-IsTidy :
    (key : ℕ) (ts : List ℕ) (l : Limiter)
    → is_listed key l.lru ≡ false
    → IsTidy l
    → IsTidy (pushed key ts l)
unfolding is_listed
pushed-IsTidy key ts l e t = record {
  keys_distinct = insert-Distinct key ts l.events t.keys_distinct;
  no_repeat = (e, t.no_repeat);
  in_step = λ k. ground (arith, t.in_step k, lookup-insert key k ts l.events);
  same_size = ground (arith, length-insert_listed key ts l t);
}

-- A key that is listed, moved to the front of the list.
abbrev pub moved : ℕ → List ℕ → Limiter → Limiter
moved key ts l = record l { events = insert key ts l.events; lru = key ∷ remove key l.lru }

pub moved-IsTidy :
    (key : ℕ) (ts : List ℕ) (l : Limiter)
    → is_listed key l.lru ≡ true
    → IsTidy l
    → IsTidy (moved key ts l)
unfolding is_listed
moved-IsTidy key ts l e t = record {
  keys_distinct = insert-Distinct key ts l.events t.keys_distinct;
  no_repeat = (
    ground (arith, is_listed-remove key key l.lru t.no_repeat),
    remove-NoRepeat key l.lru t.no_repeat,
  );
  in_step = λ k. ground (
    arith,
    t.in_step k,
    is_listed-remove key k l.lru t.no_repeat,
    lookup-insert key k ts l.events,
  );
  same_size = ground (arith, length-insert_listed key ts l t, length-remove key l.lru e);
}

-- What `reserve` leaves, with any times for the key: both tables in step, and within the cap.
abbrev pub IsKept : Limiter → Type 0
IsKept l = IsTidy l × (length l.lru ≤ limiter_map_cap) × (l.map_cap ≡ limiter_map_cap)

pub touch_lru-IsKept :
    (key : ℕ) (ts : List ℕ) (l : Limiter)
    → IsKept l
    → IsKept (touch_lru key (record l { events = insert key ts l.events }))
unfolding touch_lru
touch_lru-IsKept key ts l (t, c, m) = elim (Bool-cases (is_listed key l.lru)) [
  | inl e ↦ rw e (moved-IsTidy key ts l e t, omega (arith, length-remove key l.lru e, c), m)
  | inr e ↦
      let w = evict_rounds-within (suc (length l.lru)) (pushed key ts l) (omega arith) in
      rw e (
        evict_rounds-IsTidy (suc (length l.lru)) (pushed key ts l) (pushed-IsTidy key ts l e t),
        omega (arith, w, m),
        omega (arith, w, m),
      )
]

pub reserve-IsKept : (now key : ℕ) (l : Limiter) → IsKept l → IsKept (reserve now key l).0
unfolding reserve
reserve-IsKept now key l k =
    let keep = recent now l.window (times_of (lookup key l.events)) in
    elim (Bool-cases (ltb (length keep) l.limit)) [
      | inl e ↦ rw e (touch_lru-IsKept key (keep ++ now ∷ []) l k)
      | inr e ↦ rw e (touch_lru-IsKept key keep l k)
    ]

-- The limiter after calls at times with keys.
unfoldable pub reserve_all : List (ℕ × ℕ) → Limiter → Limiter
unfolding reserve
reserve_all [] l = l
reserve_all ((now, key) ∷ calls) l = reserve_all calls (reserve now key l).0

reserve_all-IsKept : (calls : List (ℕ × ℕ)) (l : Limiter) → IsKept l → IsKept (reserve_all calls l)
unfolding reserve_all
reserve_all-IsKept [] l k = k
reserve_all-IsKept ((now, key) ∷ calls) l k =
    reserve_all-IsKept calls (reserve now key l).0 (reserve-IsKept now key l k)

pub new_limiter-IsKept : (limit window : ℕ) → IsKept (new_limiter limit window)
unfolding new_limiter is_listed lookup
new_limiter-IsKept limit window = (
  record { keys_distinct = tt; no_repeat = tt; in_step = λ k. refl; same_size = refl },
  omega arith,
  refl,
)

-- After any calls of `reserveOrDelay` on a new limiter, both tables hold the same keys, each once, and no more than
-- the cap of the map.
pub reserve_all-new_limiter-IsKept :
    (limit window : ℕ) (calls : List (ℕ × ℕ))
    → IsKept (reserve_all calls (new_limiter limit window))
reserve_all-new_limiter-IsKept limit window calls =
    reserve_all-IsKept calls (new_limiter limit window) (new_limiter-IsKept limit window)

-- ===== src/Handshakes/Rate.antt =====
-- No window of time holds more handshakes with a server than the limit.
use tamizdat.Prelude.{
  append_assoc, true, false, ==_refl, ltb→lt, append-nil, true, ◌≢◌, ◌-◌, sym, Bool,
}
use tamizdat.Handshakes.{
  limiter_map_cap, Limiter, new_limiter, recent, is_listed, evict_rounds, touch_lru, times_of,
  reserve,
}
use tamizdat.Handshakes.Recency.{recent-recent, recent-append}
use tamizdat.Handshakes.Memory.{IsTidy, pushed-IsTidy, moved-IsTidy, new_limiter-IsKept}
use tamizdat.Prelude.{
  ℕ, List, ◌∷◌, ◌++◌, All, if◌then◌else◌, [], ◌≤◌, leb, ◌==◌, ◌≡◌, arith, ◌&&◌, ◌+◌, Bool-cases,
  ltb, inl, inr, suc, length, false, ◌<◌, refl, some, get_or, length-append,
}
use tamizdat.Prelude.Assoc.{InRange, insert, length-le_range, lookup, lookup-insert}
use native.Mathlib.Decide.{dec_lt, ℕ_discrete}
use mathlib.Core.Path.{subst}

-- How many of the times lie in the window that ends at `t`.
unfoldable pub within : ℕ → ℕ → List ℕ → ℕ
within t window [] = 0
within t window (x ∷ xs) =
    let rest = within t window xs in if leb x t && ltb t (x + window) then rest + 1 else rest

-- The times of the calls for a key that may go on at once.
unfoldable pub granted : ℕ → List (ℕ × ℕ) → Limiter → List ℕ
unfolding reserve
granted asked [] l = []
granted asked ((now, key) ∷ calls) l =
    let (l', wait) = reserve now key l in
    let rest = granted asked calls l' in if key == asked && wait == 0 then now ∷ rest else rest

within-append :
    (t window now : ℕ) (xs : List ℕ)
    → within t window (xs ++ now ∷ []) ≡ within t window xs + within t window (now ∷ [])
unfolding within
within-append t window now [] = ground arith
within-append t window now (x ∷ xs) = ground (arith, within-append t window now xs)

within_later :
    (now t window : ℕ) (xs : List ℕ)
    → All (λ x. x ≤ now) xs
    → now ≤ t
    → within t window xs ≤ within now window xs
unfolding within
within_later now t window [] a h = omega arith
within_later now t window (x ∷ xs) a h = ground (arith, within_later now t window xs a.1)

-- Where the keys are numbers below the cap, no key is evicted.
touch_lru-quiet :
    (key : ℕ) (ts : List ℕ) (l : Limiter)
    → IsTidy l
    → InRange 0 l.map_cap (insert key ts l.events)
    → let l' = touch_lru key (record l { events = insert key ts l.events }) in
      IsTidy l'
      × (l'.events ≡ insert key ts l.events)
      × (l'.limit ≡ l.limit)
      × (l'.window ≡ l.window)
      × (l'.map_cap ≡ l.map_cap)
unfolding touch_lru evict_rounds
touch_lru-quiet key ts l t r = elim (Bool-cases (is_listed key l.lru)) [
  | inl e ↦ rw e (moved-IsTidy key ts l e t, refl, refl, refl, refl)
  | inr e ↦
      let p = pushed-IsTidy key ts l e t in
      let few = length-le_range 0 l.map_cap (insert key ts l.events) p.keys_distinct r in
      let fits : ltb l.map_cap (suc (length l.lru)) ≡ false = ground (arith, few, p.same_size) in
      rw (e, fits, evict_rounds) (p, refl, refl, refl, refl)
]

-- `past` is the log of the key `asked` up to the time `last`.
record Logged (asked last : ℕ) (past : List ℕ) (l : Limiter) : Type 0 where
  tidy : IsTidy l
  in_range : InRange 0 l.map_cap l.events
  counted :
      (now : ℕ)
      → last ≤ now
      → length (recent now l.window (times_of (lookup asked l.events))) ≡ within now l.window past
  limited : (t : ℕ) → within t l.window past ≤ l.limit
  old : All (λ x. x ≤ last) past

-- The fields that `reserve` leaves alone.
abbrev SameFields : Limiter → Limiter → Type 0
SameFields l' l = (l'.limit ≡ l.limit) × (l'.window ≡ l.window) × (l'.map_cap ≡ l.map_cap)

All-later :
    (last now : ℕ) (xs : List ℕ) → last ≤ now → All (λ x. x ≤ last) xs → All (λ x. x ≤ now) xs
All-later last now [] h a = tt
All-later last now (x ∷ xs) h a = (omega (arith, h, a.0), All-later last now xs h a.1)

-- A write of `ts` for a key, where they are the right times if the key is the one asked for.
write-Logged :
    (asked key now last : ℕ) (past past' ts : List ℕ) (l : Limiter)
    → Logged asked last past l
    → key < l.map_cap
    → ((later : ℕ)
        → now ≤ later
        → length (
            recent later l.window
              (times_of (if key == asked then some ts else lookup asked l.events)))
          ≡ within later l.window past')
    → ((t : ℕ) → within t l.window past' ≤ l.limit)
    → All (λ x. x ≤ now) past'
    → let l' = touch_lru key (record l { events = insert key ts l.events }) in
      Logged asked now past' l' × SameFields l' l
write-Logged asked key now last past past' ts l g lt c m o =
    let r : InRange 0 l.map_cap (insert key ts l.events) =
      λ k v e. ground (arith, g.in_range k v, lookup-insert key k ts l.events) in
    let l' = touch_lru key (record l { events = insert key ts l.events }) in
    let (t, ev, li, wi, mc) = touch_lru-quiet key ts l g.tidy r in
    (
      record {
        tidy = t;
        in_range = λ k v e. ground (arith, ev, mc, r k v);
        counted = λ later h. rw (ev, wi, lookup-insert key asked ts l.events) (c later h);
        limited = λ u. rw (wi, li) (m u);
        old = o;
      },
      (li, wi, mc),
    )

-- The first of the kept times is still in the window.
recent_head :
    (now window : ℕ) (ts : List ℕ)
    → 0 < length (recent now window ts)
    → now < get_or (recent now window ts) 0 0 + window
unfolding recent
recent_head now window [] h = absurd (omega arith)
recent_head now window (t ∷ ts) h = ground (arith, recent_head now window ts)

one_later :
    (now later window : ℕ)
    → now ≤ later
    → length (recent later window (now ∷ [])) ≡ within later window (now ∷ [])
unfolding recent within
one_later now later window h = ground arith

within_one :
    (t window now : ℕ)
    → (within t window (now ∷ []) ≤ 1) × (t < now → within t window (now ∷ []) ≡ 0)
unfolding within
within_one t window now = (ground arith, λ h. ground arith)

-- The log with a handshake that may go on.
log_limited :
    (asked now last : ℕ) (past : List ℕ) (l : Limiter)
    → Logged asked last past l
    → last ≤ now
    → length (recent now l.window (times_of (lookup asked l.events))) < l.limit
    → (t : ℕ) → within t l.window (past ++ now ∷ []) ≤ l.limit
log_limited asked now last past l g h few t = elim (dec_lt t now) [
  | yes early ↦
      omega
        (arith, within-append t l.window now past, (within_one t l.window now).1 early, g.limited t)
  | no late ↦ omega (
    arith,
    within-append t l.window now past,
    (within_one t l.window now).0,
    g.counted now h,
    within_later now t l.window past (All-later last now past h g.old) (omega arith),
  )
]

log_counted :
    (asked now last : ℕ) (past : List ℕ) (l : Limiter)
    → Logged asked last past l
    → last ≤ now
    → (later : ℕ) → now ≤ later
    → length
        (recent later l.window (recent now l.window (times_of (lookup asked l.events)) ++ now ∷ []))
      ≡ within later l.window (past ++ now ∷ [])
log_counted asked now last past l g h later k =
    let ts = times_of (lookup asked l.events) in
    let kept = recent now l.window ts in
    rw (recent-append later l.window kept (now ∷ []), recent-recent now later l.window ts k)
      (omega (
        arith,
        length-append (recent later l.window ts) (recent later l.window (now ∷ [])),
        one_later now later l.window k,
        g.counted later (omega arith),
        within-append later l.window now past,
      ))

abbrev log_after : ℕ → ℕ → ℕ → ℕ → List ℕ → List ℕ
log_after asked key now wait past = if key == asked && wait == 0 then past ++ now ∷ [] else past

All-concat : (now : ℕ) (xs : List ℕ) → All (λ x. x ≤ now) xs → All (λ x. x ≤ now) (xs ++ now ∷ [])
All-concat now [] a = (omega arith, tt)
All-concat now (x ∷ xs) a = (a.0, All-concat now xs a.1)

abbrev Stepped : ℕ → ℕ → ℕ → List ℕ → Limiter → Type 0
Stepped asked key now past l =
    Logged asked now (log_after asked key now (reserve now key l).1 past) (reserve now key l).0
    × SameFields (reserve now key l).0 l

reserve_same :
    (asked now last : ℕ) (past : List ℕ) (l : Limiter)
    → Logged asked last past l
    → last ≤ now
    → asked < l.map_cap
    → 0 < l.limit
    → Stepped asked asked now past l
unfolding reserve
reserve_same asked now last past l g h lt pos =
    let ts = times_of (lookup asked l.events) in
    let keep = recent now l.window ts in
    let old = All-later last now past h g.old in
    let b : (asked == asked) ≡ true = ==_refl asked in
    elim (Bool-cases (ltb (length keep) l.limit)) [
      | inl e ↦
          rw (e, b)
            (write-Logged asked asked now last past (past ++ now ∷ []) (keep ++ now ∷ []) l g lt
              (λ later k. rw b (log_counted asked now last past l g h later k))
              (log_limited asked now last past l g h (ltb→lt _ _ e)) (All-concat now past old))
      | inr e ↦
          let late : (get_or keep 0 0 + l.window - now == 0) ≡ false =
            ground (arith, recent_head now l.window ts) in
          rw (e, b, late)
            (write-Logged asked asked now last past past keep l g lt
              (λ later k.
                rw (b, recent-recent now later l.window ts k) (g.counted later (omega arith)))
              g.limited old)
    ]

reserve_other :
    (asked key now last : ℕ) (past : List ℕ) (l : Limiter)
    → Logged asked last past l
    → last ≤ now
    → key < l.map_cap
    → key ≢ asked
    → Stepped asked key now past l
unfolding reserve
reserve_other asked key now last past l g h lt ne =
    let keep = recent now l.window (times_of (lookup key l.events)) in
    let old = All-later last now past h g.old in
    let b : (key == asked) ≡ false = ground arith in
    elim (Bool-cases (ltb (length keep) l.limit)) [
      | inl e ↦
          rw (e, b)
            (write-Logged asked key now last past past (keep ++ now ∷ []) l g lt
              (λ later k. rw b (g.counted later (omega arith))) g.limited old)
      | inr e ↦
          rw (e, b)
            (write-Logged asked key now last past past keep l g lt
              (λ later k. rw b (g.counted later (omega arith))) g.limited old)
    ]

reserve-Stepped :
    (asked key now last : ℕ) (past : List ℕ) (l : Limiter)
    → Logged asked last past l
    → last ≤ now
    → key < l.map_cap
    → 0 < l.limit
    → Stepped asked key now past l
reserve-Stepped asked key now last past l g h lt pos = elim (ℕ_discrete key asked) [
  | no other ↦ reserve_other asked key now last past l g h lt other
  | yes same ↦
      subst (λ (j : ℕ). Stepped asked j now past l) (sym same)
        (reserve_same asked now last past l g h (omega (arith, same)) pos)
]

-- The calls come at times that do not run back, for keys below the cap.
abbrev pub InOrder : ℕ → List (ℕ × ℕ) → Type 0
InOrder last [] = Unit {0}
InOrder last ((now, key) ∷ calls) = (last ≤ now) × (key < limiter_map_cap) × InOrder now calls

granted-within :
    (asked last : ℕ) (calls : List (ℕ × ℕ)) (past : List ℕ) (l : Limiter)
    → Logged asked last past l
    → l.map_cap ≡ limiter_map_cap
    → 0 < l.limit
    → InOrder last calls
    → (t : ℕ) → within t l.window (past ++ granted asked calls l) ≤ l.limit
unfolding granted
granted-within asked last [] past l g mc pos o t = rw (append-nil past) (g.limited t)
granted-within asked last ((now, key) ∷ calls) past l g mc pos (h, lt, o) t =
    let stepped = reserve-Stepped asked key now last past l g h (omega (arith, mc)) pos in
    let (li, wi, mc') = stepped.1 in
    let l' = (reserve now key l).0 in
    let wait = (reserve now key l).1 in
    let rest = granted asked calls l' in
    let next : within t l'.window (log_after asked key now wait past ++ rest) ≤ l'.limit =
      granted-within asked now calls (log_after asked key now wait past) l' stepped.0
        (omega (arith, mc, mc')) (omega (arith, li)) o t in
    let moved_on : within t l.window (log_after asked key now wait past ++ rest) ≤ l.limit =
      subst (λ (w : ℕ). within t w (log_after asked key now wait past ++ rest) ≤ l.limit) wi
        (omega (arith, next, li)) in
    subst (λ (log : List ℕ). within t l.window log ≤ l.limit)
      (log_joined (key == asked && wait == 0) past now rest) moved_on
  where
    log_joined :
        (b : Bool) (xs : List ℕ) (x : ℕ) (rest : List ℕ)
        → (if b then xs ++ x ∷ [] else xs) ++ rest ≡ xs ++ (if b then x ∷ rest else rest)
    log_joined true xs x rest = append_assoc xs (x ∷ []) rest
    log_joined false xs x rest = refl

-- On a new limiter, with calls at times that do not run back, for fewer servers than the map takes: no window of
-- time holds more handshakes with one server that may go on than the limit.
pub granted-new_limiter-within :
    (limit window asked : ℕ) (calls : List (ℕ × ℕ)) (t : ℕ)
    → InOrder 0 calls
    → within t (new_limiter limit window).window (granted asked calls (new_limiter limit window))
      ≤ (new_limiter limit window).limit
unfolding new_limiter
granted-new_limiter-within limit window asked calls t o =
    granted-within asked 0 calls [] (new_limiter limit window)
      (record {
        tidy = (new_limiter-IsKept limit window).0;
        in_range = λ k v e. absurd (unfold lookup in ground arith);
        counted = λ now h. unfold recent lookup within in refl;
        limited = λ u. unfold within in omega arith;
        old = tt;
      })
      refl (ground arith) o t

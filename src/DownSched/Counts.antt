-- ===== src/DownSched/Counts.antt =====
-- What the scheduler's operations leave of the number of polls that it counts for each stream.
use tamizdat.DownSched.{
  Conn, Sched, is_active, without, write, idle_initial, remove_at, index_of, unqueue, drop_conn,
  put, add_conn, remove_conn,
}
use tamizdat.Prelude.{
  ℕ, Bool-cases, Option-cases, ◌==◌, leb, inl, ◌≡◌, inr, length, arith, ◌||◌, refl, none, some,
  List, ◌∷◌, ◌++◌, [], ◌∙◌, sym, false,
}

-- A stream that is not in `active` is not in the later one.
abbrev pub Retains : Sched → Sched → Type 0
Retains s t = (id : ℕ) → is_active id s.active ≡ false → is_active id t.active ≡ false

-- The polls counted for each stream and the bound stay, and no stream comes into `active`.
abbrev pub Keeps : Sched → Sched → Type 0
Keeps s t =
    ((id : ℕ) → (t.store id).in_flight ≡ (s.store id).in_flight)
    × (t.down_window ≡ s.down_window)
    × Retains s t

pub Keeps-refl : (s : Sched) → Keeps s s
Keeps-refl s = (λ id. refl, refl, λ id h. h)

pub put-Keeps :
    (id : ℕ) (c : Conn) (s : Sched) → c.in_flight ≡ (s.store id).in_flight → Keeps s (put id c s)
unfolding put write
put-Keeps id c s h = (
  λ other. elim (Bool-cases (other == id)) [
    | inl e ↦ rw e (let same : other ≡ id = ground arith in rw same h)
    | inr e ↦ rw e refl
  ],
  refl,
  λ other g. g,
)

pub Keeps-trans : (s t u : Sched) → Keeps s t → Keeps t u → Keeps s u
Keeps-trans s t u (h0, h1, h2) (k0, k1, k2) =
    (λ id. k0 id ∙ h0 id, k1 ∙ h1, λ id g. k2 id (h2 id g))

pub remove_at-Keeps : (i : ℕ) (s : Sched) → Keeps s (remove_at i s)
unfolding remove_at
remove_at-Keeps i s = elim (Bool-cases (leb (length s.conns) i)) [
  | inl e ↦ rw e (Keeps-refl s)
  | inr e ↦ rw e (λ id. refl, refl, λ id h. h)
]

is_active-without :
    (id other : ℕ) (xs : List ℕ)
    → is_active other xs ≡ false
    → is_active other (without id xs) ≡ false
unfolding is_active without
is_active-without id other [] h = refl
is_active-without id other (x ∷ xs) h =
    let rest = is_active-without id other xs in ground (arith, rest)

without-Keeps : (id : ℕ) (s : Sched) → Keeps s (record s { active = without id s.active })
without-Keeps id s = (λ j. refl, refl, λ other h. is_active-without id other s.active h)

pub drop_conn-Keeps : (id : ℕ) (s : Sched) → Keeps s (drop_conn id s)
unfolding drop_conn unqueue
drop_conn-Keeps id s = elim (Option-cases (index_of id s.conns)) [
  | inl e ↦ rw (e, unqueue, drop_conn) (without-Keeps id s)
  | inr (i, e) ↦
      let t = record s { active = without id s.active } in
      rw (e, unqueue, drop_conn)
        (Keeps-trans s t (remove_at i t) (without-Keeps id s) (remove_at-Keeps i t))
]

-- A stream with no poll counted is added with none, and no other stream comes into `active`.
abbrev pub Added : ℕ → Sched → Sched → Type 0
Added id s t =
    ((other : ℕ) → (t.store other).in_flight ≡ (s.store other).in_flight)
    × (t.down_window ≡ s.down_window)
    × ((other : ℕ)
        → (id == other) ≡ false
        → is_active other s.active ≡ false
        → is_active other t.active ≡ false)

put-Added :
    (id : ℕ) (c : Conn) (s : Sched)
    → c.in_flight ≡ 0
    → (s.store id).in_flight ≡ 0
    → Added id s (put id c (record s { active = id ∷ s.active; conns = s.conns ++ id ∷ [] }))
unfolding put is_active
put-Added id c s zero_new zero_old =
    let kept =
      put-Keeps id c (record s { active = id ∷ s.active; conns = s.conns ++ id ∷ [] })
        (zero_new ∙ sym zero_old) in
    (kept.0, refl, λ other e h. rw e h)

pub add_conn-Added :
    (now id : ℕ) (s : Sched) → (s.store id).in_flight ≡ 0 → Added id s (add_conn now id s)
unfolding add_conn
add_conn-Added now id s none_yet =
    let c : Conn = record (s.store id) {
      idle_delay = idle_initial;
      error_delay = idle_initial;
      next_poll = none;
      in_flight = 0;
      window = 1;
      last_progress = some now;
      last_payload = none;
    } in
    let same : Added id s s = (λ j. refl, refl, λ other e h. h) in
    elim (Bool-cases (s.closed || ((s.store id).is_closed || (s.store id).eof))) [
      | inl e ↦ rw (e, add_conn) same
      | inr e ↦ elim (Bool-cases (is_active id s.active)) [
        | inl f ↦ rw (e, f, add_conn) same
        | inr f ↦ rw (e, f, add_conn) (put-Added id c s refl none_yet)
      ]
    ]

pub remove_conn-Keeps : (id : ℕ) (s : Sched) → Keeps s (remove_conn id s)
unfolding remove_conn
remove_conn-Keeps id s = elim (Bool-cases (is_active id s.active)) [
  | inl e ↦ rw (e, remove_conn) (drop_conn-Keeps id s)
  | inr e ↦ rw (e, remove_conn) (Keeps-refl s)
]

-- ===== src/DownSched/Runs.antt =====
-- Any order of the workers' and the streams' calls on the scheduler, with the polls that are under way.
use tamizdat.DownSched.{Conn, Sched, Outcome, put, add_conn, remove_conn, close, is_active}
use tamizdat.DownSched.Poll.{Pass, picked, waits, pick_pass, finish}
use tamizdat.DownSched.Counts.{Keeps, put-Keeps, Added, add_conn-Added, remove_conn-Keeps}
use tamizdat.DownSched.Picks.{Polled, scan-Polled}
use tamizdat.DownSched.Finishes.{Landed, finish-Landed}
use tamizdat.DownSched.Tally.{
  count, less, count_more, count_other, count-less, count-less_other, count_less_le,
}
use tamizdat.Prelude.{
  ℕ, List, length, ◌≡◌, ◌≤◌, ◌==◌, none, arith, [], ◌∷◌, Bool-cases, inl, inr, refl, false, sym,
  ◌∙◌, ap,
}

-- The scheduler with the polls under way, each by its stream: those that `pick` has given to a worker that has not
-- called `finish` for them yet; and with the streams that were ever added.
pub record Polling : Type 0 where
  pub sched : Sched
  pub polls : List ℕ
  pub added : List ℕ

-- What a worker has on its hands after a pass.
unfoldable pub taken : Pass → List ℕ → List ℕ
taken (picked id) polls = id ∷ polls
taken (waits earliest) polls = polls

-- One critical section, or a change that a stream makes to its own flags, channel and times. The client adds a
-- stream once (`downOnce` in client.go); a worker finishes a poll that it was given.
pub data Step (w : Polling) : Polling → Type 0 where
  adds :
      (now id : ℕ)
      → is_active id w.added ≡ false
      → Step w (record w { sched = add_conn now id w.sched; added = id ∷ w.added })
  removes : (id : ℕ) → Step w (record w { sched = remove_conn id w.sched })
  closes : Step w (record w { sched = close w.sched })
  picks :
      (now : ℕ)
      → Step w (record w {
        sched = (pick_pass now w.sched).1;
        polls = taken (pick_pass now w.sched).0 w.polls;
      })
  finishes :
      (now id : ℕ) (o : Outcome)
      → 1 ≤ count id w.polls
      → Step w (record w { sched = (finish now id o w.sched).0; polls = less id w.polls })
  changes :
      (id : ℕ) (c : Conn)
      → c.in_flight ≡ (w.sched.store id).in_flight
      → Step w (record w { sched = put id c w.sched })

pub data Run (w : Polling) : Polling → Type 0 where
  start : Run w w
  then_step : {t u : Polling} → Run w t → Step t u → Run w u

-- The scheduler counts the polls that are under way, their number is within a bound, and a stream that was never
-- added has none and is not in `active`.
pub record IsCounted (bound : ℕ) (w : Polling) : Type 0 where
  pub counted : (id : ℕ) → (w.sched.store id).in_flight ≡ count id w.polls
  pub within : (id : ℕ) → count id w.polls ≤ bound
  pub same : w.sched.down_window ≡ bound
  pub unknown :
      (id : ℕ)
      → is_active id w.added ≡ false
      → (count id w.polls ≡ 0) × (is_active id w.sched.active ≡ false)

-- A section that leaves the scheduler's counts.
Keeps-IsCounted :
    (bound : ℕ) (w : Polling) (t : Sched)
    → Keeps w.sched t
    → IsCounted bound w
    → IsCounted bound (record w { sched = t })
Keeps-IsCounted bound w t (same, window, retains) c = record {
  counted = λ id. same id ∙ c.counted id;
  within = c.within;
  same = window ∙ c.same;
  unknown = λ id e. ((c.unknown id e).0, retains id (c.unknown id e).1);
}

Added-IsCounted :
    (bound id : ℕ) (w : Polling) (t : Sched)
    → Added id w.sched t
    → IsCounted bound w
    → IsCounted bound (record w { sched = t; added = id ∷ w.added })
unfolding is_active
Added-IsCounted bound id w t (same, window, others) c = record {
  counted = λ other. same other ∙ c.counted other;
  within = c.within;
  same = window ∙ c.same;
  unknown = λ other e.
      let apart : (id == other) ≡ false = ground (arith, e) in
      let old : is_active other w.added ≡ false = ground (arith, e) in
      ((c.unknown other old).0, others other apart (c.unknown other old).1);
}

Polled-IsCounted :
    (bound : ℕ) (w : Polling) (p : Pass) (t : Sched)
    → Polled w.sched (p, t)
    → IsCounted bound w
    → IsCounted bound (record w { sched = t; polls = taken p w.polls })
unfolding taken
Polled-IsCounted bound w (waits earliest) t k c = Keeps-IsCounted bound w t k c
Polled-IsCounted bound w (picked id) t (active, up, low, others, same, retains) c =
    let counted : (other : ℕ) → (t.store other).in_flight ≡ count other (id ∷ w.polls) = λ other.
      elim (Bool-cases (other == id)) [
        | inl e ↦
            let here : other ≡ id = ground arith in
            rw here (omega (arith, up, c.counted id, count_more id w.polls))
        | inr e ↦ others other e ∙ c.counted other ∙ sym (count_other id other w.polls e)
      ] in
    record {
      counted = counted;
      within = λ other. elim (Bool-cases (other == id)) [
        | inl e ↦
            let here : other ≡ id = ground arith in rw here (omega (arith, low, counted id, c.same))
        | inr e ↦ omega (arith, c.within other, count_other id other w.polls e)
      ];
      same = same ∙ c.same;
      unknown = λ other e. elim (Bool-cases (other == id)) [
        | inl here ↦
            let number : other ≡ id = ground arith in
            let gone : is_active id w.sched.active ≡ false =
              ap (λ (j : ℕ). is_active j w.sched.active) (sym number) ∙ (c.unknown other e).1 in
            absurd (cc)
        | inr apart ↦ (
          count_other id other w.polls apart ∙ (c.unknown other e).0,
          retains other (c.unknown other e).1,
        )
      ];
    }

Landed-IsCounted :
    (bound id : ℕ) (w : Polling) (t : Sched)
    → Landed id w.sched t
    → IsCounted bound w
    → IsCounted bound (record w { sched = t; polls = less id w.polls })
Landed-IsCounted bound id w t (down, others, same, retains) c = record {
  counted = λ other. elim (Bool-cases (other == id)) [
    | inl e ↦
        let here : other ≡ id = ground arith in
        rw here (omega (arith, down, c.counted id, count-less id w.polls))
    | inr e ↦ others other e ∙ c.counted other ∙ sym (count-less_other id other w.polls e)
  ];
  within = λ other. elim (Bool-cases (other == id)) [
    | inl e ↦
        let here : other ≡ id = ground arith in
        rw here (omega (arith, c.within id, count-less id w.polls))
    | inr e ↦ omega (arith, c.within other, count-less_other id other w.polls e)
  ];
  same = same ∙ c.same;
  unknown = λ other e. (
    omega (arith, count_less_le id other w.polls, (c.unknown other e).0),
    retains other (c.unknown other e).1,
  );
}

Step-IsCounted : (bound : ℕ) (w v : Polling) → Step w v → IsCounted bound w → IsCounted bound v
unfolding pick_pass close
Step-IsCounted bound w _ (adds now id unused) c =
    Added-IsCounted bound id w _
      (add_conn-Added now id w.sched (c.counted id ∙ (c.unknown id unused).0)) c
Step-IsCounted bound w _ (removes id) c = Keeps-IsCounted bound w _ (remove_conn-Keeps id w.sched) c
Step-IsCounted bound w _ closes c =
    Keeps-IsCounted bound w _ (λ id. refl, refl, λ id h. unfold is_active in refl) c
Step-IsCounted bound w _ (picks now) c =
    Polled-IsCounted bound w _ _ (scan-Polled now (length w.sched.conns) 0 none w.sched) c
Step-IsCounted bound w _ (finishes now id o _) c =
    Landed-IsCounted bound id w _ (finish-Landed now id o w.sched) c
Step-IsCounted bound w _ (changes id c e) k = Keeps-IsCounted bound w _ (put-Keeps id c w.sched e) k

Run-IsCounted : (bound : ℕ) (w v : Polling) → Run w v → IsCounted bound w → IsCounted bound v
Run-IsCounted bound w _ start c = c
Run-IsCounted bound w v (then_step {t = mid} r p) c =
    Step-IsCounted bound mid v p (Run-IsCounted bound w mid r c)

-- From a scheduler with no stream in `active` and no poll counted, whatever calls come in any order, where each stream
-- is added once at most and each `finish` is of a poll that `pick` gave and that is not finished: of every stream, the
-- polls given and not yet finished are as many as the scheduler counts, and no more than the first scheduler's
-- downWindow.
pub Run-Capped :
    (s : Sched) (v : Polling)
    → s.active ≡ []
    → ((id : ℕ) → (s.store id).in_flight ≡ 0)
    → Run (record { sched = s; polls = []; added = [] }) v
    → (id : ℕ)
    → ((v.sched.store id).in_flight ≡ count id v.polls) × (count id v.polls ≤ s.down_window)
unfolding count
Run-Capped s v empty fresh r id =
    let c =
      Run-IsCounted s.down_window (record { sched = s; polls = []; added = [] }) v r
        (record {
          counted = fresh;
          within = λ j. omega arith;
          same = refl;
          unknown = λ j e. (refl, rw empty (unfold is_active in refl));
        }) in
    (c.counted id, c.within id)

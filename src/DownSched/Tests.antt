-- ===== src/DownSched/Tests.antt =====
-- A scheduler with three streams and a window of 2.
use tamizdat.DownSched.{
  Conn, Sched, poll_data, poll_idle, poll_transient, add_conn, remove_conn, stats, is_active,
}
use tamizdat.DownSched.Poll.{visit, ready, picked, waits, pick_pass, finish}
use tamizdat.DownSched.Runs.{Polling, taken, start, then_step, adds, picks, finishes, Run-Capped}
use tamizdat.DownSched.Tally.{count, less}
use tamizdat.Prelude.{false, ◌∷◌, ◌≡◌, arith, none, [], some, true, refl, ◌≤◌}

abbrev new_conn : Conn
new_conn = record {
  is_closed = false;
  eof = false;
  idle_delay = 0;
  error_delay = 0;
  next_poll = none;
  in_flight = 0;
  window = 0;
  last_progress = none;
  last_payload = none;
  queued = 0;
  capacity = 4;
}

abbrev new_sched : Sched
new_sched = record {
  closed = false;
  next = 0;
  conns = [];
  active = [];
  down_window = 2;
  store = λ id. new_conn;
}

abbrev three : Sched
three = record new_sched { next = 1; conns = 4 ∷ 5 ∷ 6 ∷ []; active = 4 ∷ 5 ∷ 6 ∷ [] }

pick_first : (pick_pass 10 three).0 ≡ picked 5
unfolding pick_pass
pick_first = refl

pick_twice : (pick_pass 10 (pick_pass 10 three).1).0 ≡ picked 6
unfolding pick_pass
pick_twice = refl

pick_skips_removed : (pick_pass 10 (remove_conn 5 three)).0 ≡ picked 6
unfolding pick_pass remove_conn
pick_skips_removed = refl

idle_waits :
    (pick_pass 20 (finish 10 7 poll_idle (add_conn 5 7 new_sched)).0).0 ≡ waits (some 100000010)
unfolding pick_pass finish add_conn
idle_waits = refl

stuck_stream : (finish 75000000005 7 poll_transient (add_conn 5 7 new_sched)).1 ≡ true
unfolding finish add_conn
stuck_stream = refl

counts : stats (pick_pass 10 three).1 ≡ (3, (3, 1))
unfolding stats pick_pass
counts = refl

abbrev start_polls : Polling
start_polls = record { sched = new_sched; polls = []; added = [] }

abbrev added : Polling
added = record { sched = add_conn 5 7 new_sched; polls = []; added = 7 ∷ [] }

-- A poll of the stream is given to a worker and ends; then two are given.
abbrev given : Polling
given = record { sched = (pick_pass 10 added.sched).1; polls = 7 ∷ []; added = 7 ∷ [] }

abbrev ended : Polling
ended = record { sched = (finish 30 7 poll_data given.sched).0; polls = []; added = 7 ∷ [] }

abbrev again : Polling
again = record { sched = (pick_pass 40 ended.sched).1; polls = 7 ∷ []; added = 7 ∷ [] }

abbrev twice : Polling
twice = record { sched = (pick_pass 50 again.sched).1; polls = 7 ∷ 7 ∷ []; added = 7 ∷ [] }

Run-Capped_example :
    ((twice.sched.store 7).in_flight ≡ count 7 twice.polls)
    × (count 7 twice.polls ≤ new_sched.down_window)
unfolding pick_pass finish add_conn count less taken is_active
Run-Capped_example =
    Run-Capped new_sched twice refl (λ id. refl)
      (then_step {t = again}
        (then_step {t = ended}
          (then_step {t = given}
            (then_step {t = added} (then_step {t = start_polls} start (adds 5 7 refl)) (picks 10))
            (finishes 30 7 poll_data (omega arith)))
          (picks 40))
        (picks 50))
      7

two_under_way : count 7 twice.polls ≡ 2
unfolding count
two_under_way = refl

polled_conn : visit 10 2 true new_conn ≡ ready (record new_conn { in_flight = 1; window = 1 })
unfolding visit
polled_conn = refl

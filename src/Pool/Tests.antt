-- ===== src/Pool/Tests.antt =====
-- A pool of one transport that takes two streams.
use tamizdat.Prelude.{false, true, none, ◌∷◌, ◌≡◌, [], ◌⊎◌, refl, ◌↔◌, inl, All}
use tamizdat.Pool.{
  Transport, Pool, served, again, backpressure, dial, new_pool, reserve_slot, reserve_locked,
  get_begin, end_dial, append_dialed, cleanup,
}
use tamizdat.Pool.Limits.{IsSound}
use tamizdat.Pool.Reserve.{Refuses, reserve_locked-none_iff}
use tamizdat.Pool.Recover.{get_begin-recovers}
use tamizdat.Pool.Runs.{start, then_step, gets, ends_dial, takes_reserved, Run-new_pool-IsSound}

abbrev dialed : Transport
dialed = record {
  id = 4;
  stream_limit = 2;
  active_streams = 0;
  is_closed = false;
  is_draining = false;
  last_active = 0;
}

abbrev in_use : Transport
in_use = record dialed { active_streams = 1 }

abbrev one : Pool
one = new_pool 300 1 0 0 none

abbrev serving : Pool
serving = record one { transports = in_use ∷ [] }

first_get : (get_begin 5 one).1 ≡ dial
unfolding get_begin new_pool
first_get = refl

second_get : (get_begin 5 serving).1 ≡ served 4
unfolding get_begin new_pool
second_get = refl

third_get : (get_begin 6 (get_begin 5 serving).0).1 ≡ backpressure
unfolding get_begin new_pool
third_get = refl

idle_closed :
    (cleanup 400
      (record one { transports = record dialed { last_active = 5 } ∷ in_use ∷ [] })).transports
    ≡ in_use ∷ []
unfolding cleanup new_pool
idle_closed = refl

abbrev two : Pool
two = record one {
  max_transports = 2;
  transports = in_use ∷ record dialed { id = 5; active_streams = 1 } ∷ [];
}

reserve_locked-none_iff_example :
    (reserve_locked (record serving { transports = record in_use { active_streams = 2 } ∷ [] })
      ≡ none)
    ↔ All Refuses (record in_use { active_streams = 2 } ∷ [])
reserve_locked-none_iff_example =
    reserve_locked-none_iff
      (record serving { transports = record in_use { active_streams = 2 } ∷ [] })

abbrev dead : Pool
dead = record one { transports = record in_use { is_closed = true } ∷ [] }

get_begin-recovers_example :
    ((get_begin 5 dead).1 ≡ dial)
    ⊎ (((get_begin 5 dead).1 ≡ again) × ((get_begin 6 (get_begin 5 dead).0).1 ≡ dial))
unfolding new_pool
get_begin-recovers_example = get_begin-recovers 5 6 dead refl refl refl (inl refl, tt)

Run-new_pool-IsSound_example : IsSound (append_dialed in_use (end_dial (get_begin 5 one).0)).0
unfolding new_pool reserve_slot
Run-new_pool-IsSound_example =
    Run-new_pool-IsSound 300 1 0 0 none (append_dialed in_use (end_dial (get_begin 5 one).0)).0 (
      then_step (then_step (then_step start (gets 5 refl)) (ends_dial refl))
        (takes_reserved dialed in_use refl refl refl))

-- ===== src/Pool.antt =====
-- The client's pool of transports: pkg/tamizdat/connpool.go, `connPool`, with the stream slots of
-- pkg/tamizdat/h2transport.go, `h2Transport`. Each function is one section under the pool's mutex; the dial between
-- two sections, `createFunc`, is outside. Times are nanoseconds, 0 for none, and the clock is an argument. The pool
-- holds no nil transport: only dialled ones are appended.
pub mod Shrink
pub mod Reserve
pub mod Limits
pub mod Runs
pub mod Recover
mod Tests
use tamizdat.Prelude.{
  ℕ, List, Option, if◌then◌else◌, ◌-◌, Bool, ltb, ◌||◌, none, length, false, ◌∷◌, some, true, ◌==◌,
  not, suc, ◌&&◌, set, leb, ◌+◌, [], ◌%◌, ◌++◌, get_elem?, zero,
}

-- The fields of `h2Transport` that the pool reads; `id` stands for the pointer.
pub record Transport : Type 0 where
  pub id : ℕ
  pub stream_limit : ℕ
  pub active_streams : ℕ
  pub is_closed : Bool
  pub is_draining : Bool
  pub last_active : ℕ

-- `connPool`.
pub record Pool : Type 0 where
  pub transports : List Transport
  pub idle_timeout : ℕ
  pub closed : Bool
  pub min_transports : ℕ
  pub max_transports : ℕ
  pub creating : ℕ
  pub rotation_overlap : ℕ
  pub round_robin : ℕ

-- `newConnPool`: an allowance of `none` is a negative one.
pub new_pool : ℕ → ℕ → ℕ → ℕ → Option ℕ → Pool
new_pool idle least most soft_cap allowance =
    let low = if ltb least 1 then 1 else least in
    let high = if most == 0 || ltb most low then low else most in
    record {
      transports = [];
      idle_timeout = idle;
      closed = false;
      min_transports = low;
      max_transports = high;
      creating = 0;
      rotation_overlap = elim allowance [
        | some extra ↦ extra
        | none ↦ if high == 1 && ltb 0 soft_cap then 1 else 0
      ];
      round_robin = 0;
    }

-- `reserveStreamSlot`: the transport with one stream more, or `none` for false.
pub reserve_slot : Transport → Option Transport
reserve_slot t =
    if t.is_closed || t.is_draining
    then none
    else if not (t.stream_limit == 0) && leb t.stream_limit t.active_streams
    then none
    else some (record t { active_streams = t.active_streams + 1 })

-- The loop of `reserveLocked`, with the rounds left.
pub reserve_from : ℕ → ℕ → ℕ → List Transport → Option (ℕ × Transport)
unfolding reserve_slot
reserve_from zero i start ts = none
reserve_from (suc left) i start ts =
    let idx = (start + i) % length ts in
    elim (get_elem? ts idx) [
      | none ↦ none
      | some t ↦ elim (reserve_slot t) [
        | some t' ↦ some (idx, t')
        | none ↦ reserve_from left (suc i) start ts
      ]
    ]

-- `reserveLocked`: the index and the transport as it is reserved.
pub reserve_locked : Pool → Option (ℕ × Transport)
unfolding reserve_from
reserve_locked p =
    let n = length p.transports in
    if n == 0 then none else reserve_from n 0 (p.round_robin % n) p.transports

-- `hasDrainingLocked`.
pub has_draining : List Transport → Bool
has_draining [] = false
has_draining (t ∷ ts) = if t.is_draining then true else has_draining ts

-- `maxTransportsWithRotationOverlapLocked`.
pub capacity : Pool → ℕ
unfolding has_draining
capacity p =
    if ltb 0 p.rotation_overlap && has_draining p.transports
    then p.max_transports + p.rotation_overlap
    else p.max_transports

-- The inline cleanup of `getTransport`: what the loop keeps.
pub without_dead : List Transport → List Transport
without_dead [] = []
without_dead (t ∷ ts) =
    let rest = without_dead ts in
    if t.is_closed then rest else if t.is_draining && t.active_streams == 0 then rest else t ∷ rest

-- How the first section of `getTransport` goes on: with an error, with a transport, with a wait for the dials
-- under way, with the next round, or with a dial.
pub data Begun : Type 0 where
  canceled : Begun
  served : ℕ → Begun
  waiting : Begun
  backpressure : Begun
  again : Begun
  dial : Begun

-- The branch of a pool at its capacity.
pub get_full : Pool → Pool × Begun
unfolding capacity without_dead
get_full p =
    let alive = without_dead p.transports in
    if ltb 0 p.creating
    then (p, waiting)
    else if not (p.max_transports == 1)
    then (p, backpressure)
    else if length alive == length p.transports
    then (p, backpressure)
    else (
      record p { transports = alive },
      if ltb (length alive + p.creating) (capacity p) then again else backpressure,
    )

-- That section on a pool that is open.
pub get_open : ℕ → Pool → Pool × Begun
unfolding reserve_locked capacity get_full
get_open now p = elim (reserve_locked p) [
  | some (idx, t) ↦ (
    record p {
      transports = set p.transports idx (record t { last_active = now });
      round_robin = (idx + 1) % length p.transports;
    },
    served t.id,
  )
  | none ↦
      if leb (capacity p) (length p.transports + p.creating)
      then get_full p
      else (record p { creating = p.creating + 1 }, dial)
]

-- The first section of `getTransport`, and `touch` of a reserved transport.
pub get_begin : ℕ → Pool → Pool × Begun
unfolding get_open
get_begin now p = if p.closed then (p, canceled) else get_open now p

-- The section behind a dial, of `getTransport` and `topUp`.
pub end_dial : Pool → Pool
end_dial p = record p { creating = p.creating - 1 }

-- The last section of `getTransport` and of `topUp`: the pool, and whether the transport was taken. One that is not
-- taken is closed.
pub append_dialed : Transport → Pool → Pool × Bool
unfolding capacity
append_dialed t p =
    if p.closed
    then (p, false)
    else if leb (capacity p) (length p.transports)
    then (p, false)
    else (record p { transports = p.transports ++ t ∷ [] }, true)

-- Neither closed nor draining.
pub usable_count : List Transport → ℕ
usable_count [] = 0
usable_count (t ∷ ts) =
    let rest = usable_count ts in if t.is_closed || t.is_draining then rest else rest + 1

-- The first section of `topUp`: whether it dials.
pub top_up_begin : Pool → Pool × Bool
unfolding capacity usable_count
top_up_begin p =
    if p.closed
    then (p, false)
    else if leb p.min_transports (usable_count p.transports)
        || leb (capacity p) (length p.transports + p.creating)
    then (p, false)
    else (record p { creating = p.creating + 1 }, true)

-- The loop of `enforceMaxTransportsLocked`, with the usable transports so far.
pub enforce : ℕ → ℕ → List Transport → List Transport
enforce most usable [] = []
enforce most usable (t ∷ ts) =
    let skip = enforce most usable ts in
    let one_more = enforce most (suc usable) ts in
    if t.is_closed
    then skip
    else if t.is_draining
    then t ∷ skip
    else if ltb usable most
    then t ∷ one_more
    else if t.active_streams == 0
    then skip
    else record t { is_draining = true } ∷ skip

-- `enforceMaxTransportsLocked`.
pub enforce_max : Pool → Pool
unfolding enforce
enforce_max p =
    let most = if ltb p.max_transports 1 then 1 else p.max_transports in
    record p { max_transports = most; transports = enforce most 0 p.transports }

-- `resize`: the pool, and whether `topUp` is started.
pub resize : ℕ → ℕ → Pool → Pool × Bool
unfolding enforce_max
resize least most p =
    let low = if ltb least 1 then 1 else least in
    let high = if ltb most low then low else most in
    let p' = record p { min_transports = low; max_transports = high } in
    if p.min_transports == low && p.max_transports == high then (p, false) else (
      if ltb high p.max_transports then enforce_max p' else p',
      ltb p.min_transports low || ltb p.max_transports high,
    )

-- What the loop of `cleanup` keeps.
pub without_idle : ℕ → ℕ → List Transport → List Transport
without_idle now timeout [] = []
without_idle now timeout (t ∷ ts) =
    let rest = without_idle now timeout ts in
    if t.is_closed
    then rest
    else if t.is_draining && t.active_streams == 0
    then rest
    else if t.active_streams == 0 && (not (t.last_active == 0) && ltb timeout (now - t.last_active))
    then rest
    else t ∷ rest

-- `cleanup`.
pub cleanup : ℕ → Pool → Pool
unfolding without_idle
cleanup now p = record p { transports = without_idle now p.idle_timeout p.transports }

-- `close`.
pub close : Pool → Pool
close p = if p.closed then p else record p { closed = true; transports = [] }

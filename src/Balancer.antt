-- ===== src/Balancer.antt =====
-- The balancer among outbounds: internal/outbounds/balancer.go, `BalancerDialer`.
-- A member is its index. The dials, the snapshots of the round-trip probes, the clock and the state of the
-- caller's context are arguments. Times are nanoseconds; a negative time of a probe is `none`.
pub mod Order
pub mod Dial
pub mod Hysteresis
mod Tests
use tamizdat.Prelude.{
  ℕ, Option, Bool, List, some, ◌*◌, if◌then◌else◌, ◌∷◌, [], length, none, ltb, ◌/◌, not, suc, ◌==◌,
  ◌+◌, leb, false, ◌||◌, ◌++◌, ◌%◌, zero, ◌-◌, true, ◌^◌,
}

-- 30 s.
abbrev pub failure_cooldown : ℕ
failure_cooldown = 30000000000

-- `RTTSnapshot`.
pub record Snapshot : Type 0 where
  pub p50_ms : Option ℕ
  pub last_ms : Option ℕ

-- One place of `cooldowns` and of `highRTTStates`.
pub record Member : Type 0 where
  pub cooldown : ℕ
  pub high_rtt : Bool

-- `BalancerDialer`; the mode is alive or round robin.
pub record Balancer : Type 0 where
  pub is_alive_mode : Bool
  pub members : List Member
  pub next : ℕ
  pub failover_on_high_rtt : Bool
  pub rtt_threshold : ℕ

-- `balancerRTTMetricMs`, of a snapshot that is there.
unfoldable pub rtt_metric : Option ℕ → Option ℕ → Option ℕ
rtt_metric none last = last
rtt_metric (some p50) none = some p50
rtt_metric (some p50) (some last) = if ltb p50 last then some last else some p50

-- `rttRecoveryThresholdMs`.
unfoldable pub recovery_threshold : ℕ → ℕ
recovery_threshold threshold =
    let recovery = threshold * 9 / 10 in
    let lower = if leb threshold recovery then threshold - 1 else recovery in
    if leb threshold 1 then 0 else if ltb lower 1 then 1 else lower

-- The part of `noteHighRTTIfUnhealthy` behind the metric: the flag, and the metric where it is high.
unfoldable pub note_metric : ℕ → ℕ → Bool → Bool × Option ℕ
unfolding recovery_threshold
note_metric threshold rtt true =
    if ltb (recovery_threshold threshold) rtt then (true, some rtt) else (false, none)
note_metric threshold rtt false = if ltb threshold rtt then (true, some rtt) else (false, none)

-- `noteHighRTTIfUnhealthy` in the mode alive, of a snapshot or `none` for one that is not ok.
unfoldable pub note_high : Balancer → Option Snapshot → Bool → Bool × Option ℕ
unfolding rtt_metric note_metric
note_high b none flag =
    if not b.failover_on_high_rtt || b.rtt_threshold == 0 then (flag, none) else (false, none)
note_high b (some s) flag =
    if not b.failover_on_high_rtt || b.rtt_threshold == 0
    then (flag, none)
    else elim (rtt_metric s.p50_ms s.last_ms) [
      | none ↦ (false, none)
      | some rtt ↦ note_metric b.rtt_threshold rtt flag
    ]

-- The lists of `orderedAliveMembers`, with the members as the pass leaves them.
pub record Sorted : Type 0 where
  pub left : List Member
  pub healthy : List ℕ
  pub high : List (ℕ × ℕ)
  pub cooling : List ℕ

-- Its loop, from the member at `idx` on.
unfoldable pub alive_pass : ℕ → (ℕ → Option Snapshot) → Balancer → ℕ → List Member → Sorted
unfolding note_high
alive_pass now snap b idx [] = record { left = []; healthy = []; high = []; cooling = [] }
alive_pass now snap b idx (m ∷ ms) =
    let s = alive_pass now snap b (suc idx) ms in
    let noted = note_high b (snap idx) m.high_rtt in
    let m' = record m { high_rtt = noted.0 } in
    if ltb now m.cooldown
    then record s { left = m ∷ s.left; cooling = idx ∷ s.cooling }
    else elim noted.1 [
      | some rtt ↦ record s { left = m' ∷ s.left; high = (idx, rtt) ∷ s.high }
      | none ↦ record s { left = m' ∷ s.left; healthy = idx ∷ s.healthy }
    ]

-- sort.SliceStable by the metric.
unfoldable pub insert_by : ℕ × ℕ → List (ℕ × ℕ) → List (ℕ × ℕ)
insert_by x [] = x ∷ []
insert_by x (y ∷ ys) = if ltb y.1 x.1 then y ∷ insert_by x ys else x ∷ y ∷ ys

unfoldable pub sort_stable : List (ℕ × ℕ) → List (ℕ × ℕ)
unfolding insert_by
sort_stable [] = []
sort_stable (x ∷ xs) = insert_by x (sort_stable xs)

-- The indices of choices.
abbrev pub indices_of : List (ℕ × ℕ) → List ℕ
indices_of [] = []
indices_of ((i, rtt) ∷ more) = i ∷ indices_of more

-- `orderedAliveMembers`.
unfoldable pub ordered_alive : ℕ → (ℕ → Option Snapshot) → Balancer → Balancer × List ℕ
unfolding alive_pass sort_stable
ordered_alive now snap b =
    let s = alive_pass now snap b 0 b.members in
    let high = if ltb 1 (length s.high) then sort_stable s.high else s.high in
    (record b { members = s.left }, s.healthy ++ (indices_of high ++ s.cooling))

-- The loop of the round robin, with the rounds left.
unfoldable pub rotate_from : ℕ → ℕ → ℕ → ℕ → List ℕ
rotate_from zero i start n = []
rotate_from (suc left) i start n = (start + i) % n ∷ rotate_from left (suc i) start n

-- `orderedMembers`. The counter is a uint64.
unfoldable pub ordered : ℕ → (ℕ → Option Snapshot) → Balancer → Balancer × List ℕ
unfolding ordered_alive rotate_from
ordered now snap b =
    let n = length b.members in
    if n == 0
    then (b, [])
    else if b.is_alive_mode
    then ordered_alive now snap b
    else (record b { next = (b.next + 1) % 2 ^ 64 }, rotate_from n 0 (b.next % n) n)

unfoldable pub set_cooldown : ℕ → ℕ → List Member → List Member
set_cooldown i until [] = []
set_cooldown zero until (m ∷ ms) = record m { cooldown = until } ∷ ms
set_cooldown (suc i) until (m ∷ ms) = m ∷ set_cooldown i until ms

-- `noteFailure` and `noteSuccess`.
unfoldable pub note_failure : ℕ → ℕ → Balancer → Balancer
unfolding set_cooldown
note_failure now i b =
    if b.is_alive_mode
    then record b { members = set_cooldown i (now + failure_cooldown) b.members }
    else b

unfoldable pub note_success : ℕ → Balancer → Balancer
unfolding set_cooldown
note_success i b = if b.is_alive_mode then record b { members = set_cooldown i 0 b.members } else b

-- The loop of `DialContext` and of `DialPacket`: whether a member answers, when it fails, and whether the
-- context has then ended. The result is the member, or `none` for an error.
unfoldable pub dial_loop :
    (ℕ → Bool) → (ℕ → ℕ) → (ℕ → Bool) → List ℕ → Balancer → Balancer × Option ℕ
unfolding note_failure note_success
dial_loop answers fails_at ended [] b = (b, none)
dial_loop answers fails_at ended (i ∷ is) b =
    let failed = note_failure (fails_at i) i b in
    let rest = dial_loop answers fails_at ended is failed in
    if answers i then (note_success i b, some i) else if ended i then (failed, none) else rest

-- `DialContext` and `DialPacket`.
unfoldable pub dial :
    ℕ → (ℕ → Option Snapshot) → (ℕ → Bool) → (ℕ → ℕ) → (ℕ → Bool) → Balancer → Balancer × Option ℕ
unfolding ordered dial_loop
dial now snap answers fails_at ended b =
    let (b', choices) = ordered now snap b in dial_loop answers fails_at ended choices b'

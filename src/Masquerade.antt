-- ===== src/Masquerade.antt =====
-- The rate limit on masquerade forwards: pkg/tamizdat/masquerade_ratelimit.go.
-- Times are nanoseconds and the clock is an argument; a source address is a number that stands for
-- its string. Randomness is an argument too: the 8 bytes of `crypto/rand` as a number,
-- or `none` where reading them failed, and the threshold that the source computes with floats.
pub mod Window
pub mod Verdicts
mod Tests
use tamizdat.Prelude.{
  ℕ, List, ◌∷◌, if◌then◌else◌, ◌-◌, Option, Bool, ltb, leb, ◌++◌, ◌==◌, true, false, length, [],
  none, not, drop, some, ◌+◌,
}
use tamizdat.Prelude.Assoc.{Assoc, lookup, insert, retain}

-- 60 s, and 5 min.
abbrev pub window_duration : ℕ
window_duration = 60000000000

abbrev pub bucket_ttl : ℕ
bucket_ttl = 300000000000

abbrev pub soft_threshold : ℕ
soft_threshold = 5

abbrev pub hard_limit : ℕ
hard_limit = 10

abbrev pub max_probes : ℕ
max_probes = 20

-- `RateLimitDecision`.
pub data Decision : Type 0 where
  forward drop_after_jitter : Decision

-- The loop that counts expired timestamps at the front, and the trim by that count.
pub evict_expired : ℕ → List ℕ → List ℕ
evict_expired cutoff [] = []
evict_expired cutoff (t ∷ probes) =
    let rest = evict_expired cutoff probes in if ltb t cutoff then rest else t ∷ probes

-- The oldest entries go where the slice is at its capacity.
pub bound_probes : List ℕ → List ℕ
bound_probes probes =
    if leb max_probes (length probes) then drop (length probes - max_probes + 1) probes else probes

-- The window of one source after a probe at `now`.
pub record_probe : ℕ → List ℕ → List ℕ
unfolding evict_expired bound_probes
record_probe now probes = bound_probes (evict_expired (now - window_duration) probes) ++ (now ∷ [])

-- `dropDraw`.
pub drop_draw : (ℕ → ℕ → ℕ) → Option ℕ → ℕ → ℕ → Bool
drop_draw threshold random num den =
    if den == 0
    then false
    else if num == 0
    then false
    else if leb den num
    then true
    else elim random [ none ↦ false | some r ↦ ltb r (threshold num den) ]

-- The switch on the number of probes in the window.
pub decision : (ℕ → ℕ → ℕ) → Option ℕ → ℕ → Decision
unfolding drop_draw
decision threshold random count =
    if leb count soft_threshold
    then forward
    else if leb count hard_limit
    then (if drop_draw threshold random (count - soft_threshold) (hard_limit - soft_threshold)
        then drop_after_jitter
        else forward)
    else drop_after_jitter

-- `rl.buckets[ip]`, with a fresh window for a new source.
abbrev pub bucket : Option (List ℕ) → List ℕ
bucket none = []
bucket (some probes) = probes

abbrev pub probes_of : ℕ → Assoc (List ℕ) → List ℕ
probes_of ip buckets = bucket (lookup ip buckets)

-- `decide`, on a limiter that is not nil.
pub decide : (ℕ → ℕ → ℕ) → ℕ → Option ℕ → ℕ → Assoc (List ℕ) → Assoc (List ℕ) × Decision
unfolding record_probe decision
decide threshold now random ip buckets =
    let probes = record_probe now (probes_of ip buckets) in
    (insert ip probes buckets, decision threshold random (length probes))

-- `allow`.
pub allow : (ℕ → ℕ → ℕ) → ℕ → Option ℕ → ℕ → Assoc (List ℕ) → Assoc (List ℕ) × Bool
unfolding decide
allow threshold now random ip buckets =
    let (buckets', d) = decide threshold now random ip buckets in
    (buckets', elim d [ forward ↦ true | drop_after_jitter ↦ false ])

-- `w.probes[len(w.probes)-1]` is not before the cutoff; an empty window is not live.
pub is_live : ℕ → List ℕ → Bool
is_live cutoff [] = false
is_live cutoff (t ∷ []) = not (ltb t cutoff)
is_live cutoff (t ∷ u ∷ probes) = is_live cutoff (u ∷ probes)

-- `reapExpiredBuckets`.
pub reap_expired : ℕ → Assoc (List ℕ) → Assoc (List ℕ)
unfolding is_live
reap_expired now buckets = retain (is_live (now - bucket_ttl)) buckets

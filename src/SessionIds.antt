-- ===== src/SessionIds.antt =====
-- The cache of SessionID nonces: pkg/tamizdat/sessionid_cache.go, `sessionIDCache`.
-- A key, which is a server address with a shortID, is a number. Times are nanoseconds and the clock
-- is an argument. The entropy source is an argument of each call: the 6 random bytes as a number and
-- the 8 bytes of the jitter as a number, with `none` where reading them failed.
pub mod Uniqueness
pub mod Freshness
mod Tests
use tamizdat.Prelude.{
  ℕ, Option, ◌^◌, some, Bool, none, if◌then◌else◌, ◌+◌, true, ◌%◌, ◌++◌, ltb, ◌-◌, ◌||◌, ◌==◌,
}
use tamizdat.Prelude.Bytes.{Bytes, be_bytes}
use tamizdat.Prelude.Assoc.{Assoc, lookup, erase, insert}

-- 30 min and 120 min.
abbrev pub ttl_min : ℕ
ttl_min = 1800000000000

abbrev pub ttl_max : ℕ
ttl_max = 7200000000000

abbrev pub u16_mod : ℕ
u16_mod = 2 ^ 16

-- `sessionIDCacheEntry`.
pub record CacheEntry : Type 0 where
  pub stable_random : ℕ
  pub counter : ℕ
  pub expires_at : ℕ

-- The two reads of one reseed.
pub record Entropy : Type 0 where
  pub stable_bytes : Option ℕ
  pub jitter_bytes : Option ℕ

-- `randomTTL`.
pub random_ttl : Option ℕ → Option ℕ
random_ttl none = none
random_ttl (some jitter) = some (ttl_min + jitter % (ttl_max - ttl_min))

-- The 8 bytes: the stable 6, then the counter in big-endian order.
pub nonce_of : ℕ → ℕ → Bytes
nonce_of stable counter = be_bytes 6 stable ++ be_bytes 2 counter

-- `needReseed`, with `none` for a key that is not in the cache.
pub need_reseed : ℕ → Option CacheEntry → Bool
need_reseed now none = true
need_reseed now (some e) = ltb e.expires_at now || e.counter == u16_mod - 1

-- The new entry, or `none` for an error of the entropy source.
pub reseed : ℕ → Entropy → Option CacheEntry
unfolding random_ttl
reseed now entropy = elim entropy.stable_bytes [
  | none ↦ none
  | some stable ↦ elim (random_ttl entropy.jitter_bytes) [
    | none ↦ none
    | some ttl ↦ some (record { stable_random = stable; counter = 0; expires_at = now + ttl })
  ]
]

-- The entry that `Acquire` goes on with.
pub choose_entry : ℕ → Entropy → Option CacheEntry → Option CacheEntry
unfolding reseed need_reseed
choose_entry now entropy found = if need_reseed now found then reseed now entropy else found

-- `Acquire`: the cache, and the nonce or `none` for an error.
pub acquire : ℕ → Entropy → ℕ → Assoc CacheEntry → Assoc CacheEntry × Option Bytes
unfolding choose_entry nonce_of
acquire now entropy key cache = elim (choose_entry now entropy (lookup key cache)) [
  | none ↦ (cache, none)
  | some e ↦ (
    insert key (record e { counter = (e.counter + 1) % u16_mod }) cache,
    some (nonce_of e.stable_random e.counter),
  )
]

-- `PeekStableRandom`.
pub peek_stable_random : ℕ → ℕ → Assoc CacheEntry → Option ℕ
peek_stable_random now key cache = elim (lookup key cache) [
  | none ↦ none
  | some e ↦ if ltb e.expires_at now then none else some e.stable_random
]

-- `Forget`.
pub forget : ℕ → Assoc CacheEntry → Assoc CacheEntry
forget key cache = erase key cache

-- ===== src/Bond/Reorder.antt =====
-- The reorder buffer of the bonded tunnel: internal/wgturnclient/bondv2.go, `bondReorderBuffer`.
-- Times are nanoseconds, with 0 for Go's zero `time.Time`; the clock is an argument of each call.
-- A payload is any value, since the buffer only copies it.
pub mod Drain
pub mod Push
pub mod Flush
pub mod Order
pub mod Window
mod Tests
use Prim.Native.Nat.{ℕ}
use tamizdat.Prelude.{
  ◌^◌, [], List, if◌then◌else◌, suc, length, ◌+◌, ◌==◌, ◌%◌, ◌||◌, ◌∷◌, ltb, ◌-◌, none, some, leb,
  zero,
}
use tamizdat.Prelude.Assoc.{Assoc, insert, lookup, erase}

abbrev pub u64_mod : ℕ
u64_mod = 2 ^ 64

abbrev pub reorder_window : ℕ
reorder_window = 256

-- 30 ms.
abbrev pub reorder_hold : ℕ
reorder_hold = 30000000

-- `bondReorderBuffer`, with the three counters of `Stats` that it bumps.
pub record Reorder (A : Type 0) : Type 0 where
  pub expect : ℕ
  pub buf : Assoc A
  pub first : ℕ
  pub late : ℕ
  pub duplicates : ℕ
  pub gaps : ℕ

module _ {A : Type 0} where
  -- `newBondReorderBuffer`.
  pub fresh : Reorder A
  fresh = record { expect = 1; buf = []; first = 0; late = 0; duplicates = 0; gaps = 0 }

  -- The loop of `drainContiguous`: each round takes one entry out, so `suc (length buf)` rounds do.
  pub drain : ℕ → Reorder A → Reorder A × List A
  drain zero r = (r, [])
  drain (suc fuel) r = elim (lookup r.expect r.buf) [
    | none ↦ (r, [])
    | some p ↦
        let (r', out) =
          drain fuel (record r { buf = erase r.expect r.buf; expect = (r.expect + 1) % u64_mod }) in
        (r', p ∷ out)
  ]

  -- `drainContiguous`.
  pub drain_contiguous : Reorder A → Reorder A × List A
  drain_contiguous r = drain (suc (length r.buf)) r

  -- `if len(r.buf) == 0 { r.first = time.Time{} }`, or else the hold that the caller restarts.
  pub settle : ℕ → Reorder A → Reorder A
  settle restart r = record r { first = if length r.buf == 0 then 0 else restart }

  -- The branch `seq == r.expect` of `push`.
  pub deliver : Reorder A → A → Reorder A × List A
  unfolding settle
  deliver r payload =
      let (r', out) = drain_contiguous (record r { expect = (r.expect + 1) % u64_mod }) in
      (settle r'.first r', payload ∷ out)

  -- The branch that buffers a copy of the payload.
  pub hold : ℕ → Reorder A → ℕ → A → Reorder A
  hold now r seq payload = record r {
    buf = insert seq payload r.buf;
    first = if r.first == 0 then now else r.first;
  }

  -- One round of `push`; `again` is its call of itself.
  pub push_round : (Reorder A → Reorder A × List A) → ℕ → Reorder A → ℕ → A → Reorder A × List A
  unfolding hold
  push_round again now r seq payload =
      if seq == 0 || ltb seq r.expect
      then (record r { late = r.late + 1 }, [])
      else if seq == r.expect
      then deliver r payload
      else elim (lookup seq r.buf) [
        | some _ ↦ (record r { duplicates = r.duplicates + 1 }, [])
        | none ↦
            if leb reorder_window (seq - r.expect)
            then again (record r { gaps = r.gaps + 1; expect = seq; buf = []; first = 0 })
            else (hold now r seq payload, [])
      ]

  -- `push`: the call of itself is made with `expect` at `seq`, and calls no further.
  pub push : ℕ → Reorder A → ℕ → A → Reorder A × List A
  unfolding push_round
  push now r seq payload =
      push_round (λ s. push_round (λ t. (t, [])) now s seq payload) now r seq payload

  -- The loop for the lowest buffered number, from 0 for none yet.
  pub lowest_from : ℕ → Assoc A → ℕ
  lowest_from low [] = low
  lowest_from low ((seq, _) ∷ m) = lowest_from (if low == 0 || ltb seq low then seq else low) m

  -- The part of `flushExpired` that skips to the lowest buffered number.
  pub flush_to : ℕ → ℕ → Reorder A → Reorder A × List A
  unfolding settle
  flush_to now lowest r = elim (lookup lowest r.buf) [
    | none ↦ (r, [])
    | some payload ↦
        let (r', out) = drain_contiguous (record r {
          gaps = if ltb r.expect lowest then r.gaps + (lowest - r.expect) else r.gaps;
          buf = erase lowest r.buf;
          expect = (lowest + 1) % u64_mod;
        }) in
        (settle now r', payload ∷ out)
  ]

  -- `flushExpired`.
  pub flush_expired : ℕ → Reorder A → Reorder A × List A
  unfolding flush_to lowest_from
  flush_expired now r =
      if length r.buf == 0 || r.first == 0 || ltb (now - r.first) reorder_hold
      then (r, [])
      else flush_to now (lowest_from 0 r.buf) r

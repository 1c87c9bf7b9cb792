-- ===== src/Bond/Reorder/Window.antt =====
-- What the reorder buffer holds: how much at most, and what it may not lose.
use tamizdat.Bond.Reorder.{Reorder, push, hold, deliver, settle, reorder_window, u64_mod}
use tamizdat.Bond.Reorder.Drain.{Inv, contiguous-Drained, step-Draining, segment}
use tamizdat.Bond.Reorder.Push.{
  Arrival, old, expected, known, far, near, arrival, push_next, push_duplicate, push-hold,
}
use tamizdat.Prelude.{
  ℕ, length, ◌<◌, arith, ◌+◌, List, ◌≡◌, ◌≤◌, suc, if◌then◌else◌, ◌==◌, some, refl,
}
use tamizdat.Prelude.Assoc.{length-le_range, lookup, lookup-insert}

module _ {A : Type 0} where
  -- The buffer holds fewer payloads than the window is wide.
  pub length-buf-lt_window : (P : ℕ → A) (r : Reorder A) → Inv P r → length r.buf < reorder_window
  length-buf-lt_window P r v = omega (
    arith,
    length-le_range (r.expect + 1) 255 r.buf v.base.distinct
        (λ k w f. ground (arith, v.base.entries k w f, v.waiting)),
  )

  -- Nothing is lost: the numbers before the new `expect` are handed on, all of them, and the rest
  -- of the buffer stays, with the payload that came in.
  pub record Lossless (P : ℕ → A) (r : Reorder A) (seq : ℕ) (payload : A)
      (result : Reorder A × List A) : Type 0 where
    pub count : ℕ
    pub handed : result.1 ≡ segment P r.expect count
    pub up_to : result.0.expect ≡ r.expect + count
    pub keeps :
        (k : ℕ)
        → result.0.expect ≤ k
        → lookup k result.0.buf ≡ (if seq == k then some payload else lookup k r.buf)

  deliver-Lossless :
      (P : ℕ → A) (r : Reorder A) (payload : A)
      → Inv P r
      → r.expect + 1 < u64_mod
      → payload ≡ P r.expect
      → Lossless P r r.expect payload (deliver r payload)
  unfolding deliver settle
  deliver-Lossless P r payload v top e =
      let d = contiguous-Drained P _ (step-Draining P r v top) in
      record {
        count = suc d.count;
        handed = ground (arith, d.handed);
        up_to = omega (arith, d.up_to);
        keeps = λ k h. ground (arith, d.keeps k h, d.up_to);
      }

  push_by-Arrival :
      (P : ℕ → A) (now : ℕ) (r : Reorder A) (seq : ℕ) (payload : A)
      → Inv P r
      → seq + 1 < u64_mod
      → payload ≡ P seq
      → r.expect ≤ seq
      → seq < r.expect + reorder_window
      → Arrival r seq
      → Lossless P r seq payload (push now r seq payload)
  push_by-Arrival P now r seq payload v top e lo hi (old h) =
      absurd (ground (arith, v.base.started))
  push_by-Arrival P now r seq payload v top e lo hi (expected q) =
      rw (q, push_next now r payload v.base.started)
        (deliver-Lossless P r payload v (omega arith) (rw (← q) e))
  push_by-Arrival P now r seq payload v top e lo hi (known w up f) =
      rw (push_duplicate now r seq payload w up f) (record {
        count = 0;
        handed = refl;
        up_to = omega arith;
        keeps = λ k h. ground (arith, v.base.entries seq w f);
      })
  push_by-Arrival P now r seq payload v top e lo hi (far up f) = absurd (omega arith)
  push_by-Arrival P now r seq payload v top e lo hi (near up _ f) =
      rw (push-hold now r seq payload up hi f) (
        unfold hold in
        (record {
          count = 0;
          handed = refl;
          up_to = omega arith;
          keeps = λ k h. lookup-insert seq k payload r.buf;
        }))

  -- In a state that satisfies the invariant, where the frame's number is below 2^64 - 1, not below the expected one and
  -- inside the window from it, and its payload is the one of that number: `push` hands on all numbers from the
  -- expected one to the new expected one, each with its payload, and what the buffer holds at or behind the new
  -- expected one is what it held there, with the payload that came. So nothing is lost.
  pub push-Lossless :
      (P : ℕ → A) (now : ℕ) (r : Reorder A) (seq : ℕ) (payload : A)
      → Inv P r
      → seq + 1 < u64_mod
      → payload ≡ P seq
      → r.expect ≤ seq
      → seq < r.expect + reorder_window
      → Lossless P r seq payload (push now r seq payload)
  push-Lossless P now r seq payload v top e lo hi =
      push_by-Arrival P now r seq payload v top e lo hi (arrival r seq)

-- ===== src/Bond/Reorder/Push.antt =====
-- The branches of `push`, and what every one of them promises.
use tamizdat.Bond.Reorder.{push, Reorder, deliver, reorder_window, push_round, u64_mod, hold}
use tamizdat.Bond.Reorder.Drain.{
  Inv, Promise, quiet, skipped, recount, deliver-Promise, jump, skipped-Inv, hold-Inv,
}
use tamizdat.Prelude.{
  ℕ, ◌≡◌, ◌<◌, ◌+◌, ◌⊎◌, Option-cases, inr, [], arith, some, ◌≤◌, none, inl, refl,
}
use native.Mathlib.Decide.{dec_lt, ℕ_discrete}
use tamizdat.Prelude.Assoc.{lookup}

module _ {A : Type 0} where
  -- The four ways through `push`.
  pub push_late :
      (now : ℕ) (r : Reorder A) (seq : ℕ) (payload : A)
      → seq ≡ 0 ⊎ seq < r.expect
      → push now r seq payload ≡ (record r { late = r.late + 1 }, [])
  unfolding push
  push_late now r seq payload h = ground arith

  pub push_next :
      (now : ℕ) (r : Reorder A) (payload : A)
      → 0 < r.expect
      → push now r r.expect payload ≡ deliver r payload
  unfolding push
  push_next now r payload h = ground arith

  pub push_duplicate :
      (now : ℕ) (r : Reorder A) (seq : ℕ) (payload v : A)
      → r.expect < seq
      → lookup seq r.buf ≡ some v
      → push now r seq payload ≡ (record r { duplicates = r.duplicates + 1 }, [])
  unfolding push
  push_duplicate now r seq payload v lo e = ground arith

  pub push_gap :
      (now : ℕ) (r : Reorder A) (seq : ℕ) (payload : A)
      → r.expect + reorder_window ≤ seq
      → lookup seq r.buf ≡ none
      → push now r seq payload ≡ deliver (skipped r seq) payload
  unfolding push
  push_gap now r seq payload far e = ground arith

  pub push-hold :
      (now : ℕ) (r : Reorder A) (seq : ℕ) (payload : A)
      → r.expect < seq
      → seq < r.expect + reorder_window
      → lookup seq r.buf ≡ none
      → push now r seq payload ≡ (hold now r seq payload, [])
  unfolding push
  push-hold now r seq payload lo near e = ground arith

  -- `push` satisfies the recursive equation of the source: its call of itself never needs a second.
  pub push-push_round :
      (now : ℕ) (r : Reorder A) (seq : ℕ) (payload : A)
      → push now r seq payload ≡ push_round (λ s. push now s seq payload) now r seq payload
  unfolding push
  push-push_round now r seq payload = ground arith

  -- Where an arriving number stands.
  pub data Arrival (r : Reorder A) (seq : ℕ) : Type 0 where
    old : (seq ≡ 0) ⊎ (seq < r.expect) → Arrival r seq
    expected : seq ≡ r.expect → Arrival r seq
    known : (v : A) → r.expect < seq → lookup seq r.buf ≡ some v → Arrival r seq
    far : r.expect + reorder_window ≤ seq → lookup seq r.buf ≡ none → Arrival r seq
    near :
        r.expect < seq → seq < r.expect + reorder_window → lookup seq r.buf ≡ none → Arrival r seq

  Arrival-ahead : (r : Reorder A) (seq : ℕ) → r.expect < seq → Arrival r seq
  Arrival-ahead r seq h = elim (Option-cases (lookup seq r.buf)) [
    | inr (v, e) ↦ known v h e
    | inl e ↦ elim (dec_lt seq (r.expect + reorder_window)) [
      | yes n ↦ near h n e
      | no n ↦ far (omega arith) e
    ]
  ]

  pub arrival : (r : Reorder A) (seq : ℕ) → Arrival r seq
  arrival r seq = elim (dec_lt seq r.expect) [
    | yes h ↦ old (inr h)
    | no h ↦ elim (ℕ_discrete seq r.expect) [
      | yes e ↦ expected e
      | no n ↦ Arrival-ahead r seq (omega arith)
    ]
  ]

  push_at :
      (P : ℕ → A) (now : ℕ) (r : Reorder A) (seq : ℕ) (payload : A)
      → Inv P r
      → seq + 1 < u64_mod
      → payload ≡ P seq
      → Arrival r seq
      → Promise P r (push now r seq payload)
  push_at P now r seq payload v top e (old h) =
      rw (push_late now r seq payload h)
        (quiet P r _ refl (recount P r r.first (r.late + 1) r.duplicates r.gaps v))
  push_at P now r seq payload v top e (expected q) =
      rw (q, push_next now r payload v.base.started)
        (deliver-Promise P r payload v (omega arith) (rw (← q) e))
  push_at P now r seq payload v top e (known w lo f) =
      rw (push_duplicate now r seq payload w lo f)
        (quiet P r _ refl (recount P r r.first r.late (r.duplicates + 1) r.gaps v))
  push_at P now r seq payload v top e (far lo f) = rw (push_gap now r seq payload lo f) (
      jump P r (skipped r seq) _ (omega arith) (
        deliver-Promise P (skipped r seq) payload (skipped-Inv P r seq (omega arith) (omega arith))
          top e))
  push_at P now r seq payload v top e (near lo hi f) =
      rw (push-hold now r seq payload lo hi f)
        (quiet P r _ (unfold hold in refl) (hold-Inv P now r seq payload v lo hi top e))

  -- In a state that satisfies the invariant, where the frame's number is below 2^64 - 1 and its payload is the one of
  -- that number: `push` hands on a run of consecutive numbers, each with its payload, that starts at the expected
  -- number or later; it expects next the number behind that run, and keeps the invariant.
  pub push-Promise :
      (P : ℕ → A) (now : ℕ) (r : Reorder A) (seq : ℕ) (payload : A)
      → Inv P r
      → seq + 1 < u64_mod
      → payload ≡ P seq
      → Promise P r (push now r seq payload)
  push-Promise P now r seq payload v top e = push_at P now r seq payload v top e (arrival r seq)

-- ===== src/Bond/Reorder/Order.antt =====
-- A whole run of the reorder buffer: the order in which it hands payloads on.
use tamizdat.Bond.Reorder.{Reorder, push, flush_expired, fresh}
use tamizdat.Bond.Reorder.Drain.{Inv, Promise, segment}
use tamizdat.Bond.Reorder.Push.{push-Promise}
use tamizdat.Bond.Reorder.Flush.{flush_expired-Promise}
use mathlib.Core.List.{map-append}
use tamizdat.Prelude.{
  ℕ, List, ◌∷◌, [], ◌≤◌, ◌≡◌, ◌+◌, ◌++◌, All, arith, suc, map, ◌<◌, sym, refl, ap, ◌^◌, zero,
}
use tamizdat.Prelude.Assoc.{lookup}

-- A frame arrives at a time, with its number and its payload, or the reorder ticker fires.
pub data Event (A : Type 0) : Type 0 where
  arrives : ℕ → ℕ → A → Event A
  ticks : ℕ → Event A

-- The numbers rise, from `lo` on.
abbrev pub Ascends : ℕ → List ℕ → Type 0
Ascends lo [] = Unit {0}
Ascends lo (k ∷ ks) = (lo ≤ k) × Ascends (suc k) ks

abbrev numbers : ℕ → ℕ → List ℕ
numbers start zero = []
numbers start (suc n) = start ∷ numbers (suc start) n

numbers-Ascends :
    (lo start n : ℕ) (ks : List ℕ)
    → lo ≤ start
    → Ascends (start + n) ks
    → Ascends lo (numbers start n ++ ks)
numbers-Ascends lo start zero [] h a = tt
numbers-Ascends lo start zero (k ∷ ks) h a = (omega arith, a.1)
numbers-Ascends lo start (suc n) ks h a =
    (h, numbers-Ascends (suc start) (suc start) n ks (omega arith) (shifted ks a))
  where
    shifted : (l : List ℕ) → Ascends (start + suc n) l → Ascends (suc start + n) l
    shifted [] b = tt
    shifted (j ∷ l) b = (omega arith, b.1)

module _ {A : Type 0} where
  segment-map : (P : ℕ → A) (start n : ℕ) → segment P start n ≡ map P (numbers start n)
  segment-map P start zero = refl
  segment-map P start (suc n) = ap (◌∷◌ (P start)) (segment-map P (suc start) n)

  pub step : Reorder A → Event A → Reorder A × List A
  step r (arrives now seq payload) = push now r seq payload
  step r (ticks now) = flush_expired now r

  -- All that a run hands on.
  unfoldable pub run : Reorder A → List (Event A) → List A
  unfolding step
  run r [] = []
  run r (e ∷ es) = let (r', out) = step r e in out ++ run r' es

  -- Every frame carries the payload of its number, and the last number of 64 bits is not used.
  abbrev pub Carries : (ℕ → A) → Event A → Type 0
  Carries P (arrives now seq payload) = (seq + 1 < 2 ^ 64) × (payload ≡ P seq)
  Carries P (ticks now) = Unit {0}

  step-Promise :
      (P : ℕ → A) (r : Reorder A) (e : Event A) → Inv P r → Carries P e → Promise P r (step r e)
  unfolding step
  step-Promise P r (arrives now seq payload) v c = push-Promise P now r seq payload v c.0 c.1
  step-Promise P r (ticks now) v c = flush_expired-Promise P now r v

  abbrev InOrder : (ℕ → A) → ℕ → List A → Type 0
  InOrder P lo out = (ks : List ℕ) × (out ≡ map P ks) × Ascends lo ks

  append-InOrder :
      (P : ℕ → A) (r : Reorder A) (result : Reorder A × List A) (out : List A)
      → Promise P r result
      → InOrder P result.0.expect out
      → InOrder P r.expect (result.1 ++ out)
  append-InOrder P r result out p (ks, same, up) =
      let d = p.delivers in
      (
        numbers d.start d.count ++ ks,
        rw (d.handed, segment-map P d.start d.count, same)
            (sym (map-append P (numbers d.start d.count) ks)),
        numbers-Ascends r.expect d.start d.count ks d.not_before (rw d.up_to up),
      )

  run-InOrder :
      (P : ℕ → A) (r : Reorder A) (es : List (Event A))
      → Inv P r
      → All (Carries P) es
      → InOrder P r.expect (run r es)
  unfolding run
  run-InOrder P r [] v c = ([], refl, tt)
  run-InOrder P r (e ∷ es) v c =
      let p = step-Promise P r e v c.0 in
      append-InOrder P r (step r e) (run (step r e).0 es) p
        (run-InOrder P (step r e).0 es p.inv c.1)

  pub fresh-Inv : (P : ℕ → A) → Inv P fresh
  unfolding fresh lookup
  fresh-Inv P = record {
    base = record {
      distinct = tt;
      started = omega arith;
      fits = omega arith;
      entries = λ k v f. absurd (cc);
    };
    waiting = refl;
  }

  -- Whatever the order of arrival, with losses, repeats, gaps and flushes, a new buffer hands the
  -- payloads on in rising order of their numbers: none twice, none out of turn.
  pub run-fresh-Ascends :
      (P : ℕ → A) (es : List (Event A))
      → All (Carries P) es
      → (ks : List ℕ) × (run fresh es ≡ map P ks) × Ascends 1 ks
  run-fresh-Ascends P es c = unfold fresh in run-InOrder P fresh es (fresh-Inv P) c

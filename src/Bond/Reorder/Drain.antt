-- ===== src/Bond/Reorder/Drain.antt =====
-- The invariant of the reorder buffer, and what `drainContiguous` and the deliveries keep of it.
use tamizdat.Bond.Reorder.{
  Reorder, u64_mod, reorder_window, drain, drain_contiguous, settle, deliver, hold,
}
use tamizdat.Prelude.{
  ℕ, List, ◌≤◌, ◌+◌, length, [], ◌≡◌, ◌<◌, ◌%◌, suc, some, none, arith, ◌∷◌, Option-cases, inl,
  zero, inr, refl,
}
use tamizdat.Prelude.Assoc.{
  erase, lookup, Distinct, erase-Distinct, lookup-erase, length-erase, insert-Distinct,
  lookup-insert,
}

-- The payloads numbered `start` to `start + n - 1`.
abbrev pub segment {ℓ} : {A : Type ℓ} → (ℕ → A) → ℕ → ℕ → List A
segment P start zero = []
segment P start (suc n) = P start ∷ segment P (suc start) n

module _ {A : Type 0} where
  -- What the buffer holds is numbered, inside the window from `expect` on, below the last number.
  abbrev pub Entries : (ℕ → A) → Reorder A → Type 0
  Entries P r =
      (k : ℕ) (v : A)
      → lookup k r.buf ≡ some v
      → (r.expect ≤ k) × (k < r.expect + reorder_window) × (k + 1 < u64_mod) × (v ≡ P k)

  pub record Draining (P : ℕ → A) (r : Reorder A) : Type 0 where
    pub distinct : Distinct r.buf
    pub started : 1 ≤ r.expect
    pub fits : r.expect < u64_mod
    pub entries : Entries P r

  -- Between calls the expected number itself is not in the buffer.
  pub record Inv (P : ℕ → A) (r : Reorder A) : Type 0 where
    pub base : Draining P r
    pub waiting : lookup r.expect r.buf ≡ none

  -- What a call hands on is a run of consecutive numbers, from `expect` on, up to the new `expect`.
  pub record Delivers (P : ℕ → A) (r : Reorder A) (result : Reorder A × List A) : Type 0 where
    pub start : ℕ
    pub count : ℕ
    pub handed : result.1 ≡ segment P start count
    pub not_before : r.expect ≤ start
    pub up_to : start + count ≡ result.0.expect

  -- No entry at or after the new `expect` is touched.
  abbrev pub Keeps : Reorder A → Reorder A → Type 0
  Keeps r s = (k : ℕ) → s.expect ≤ k → lookup k s.buf ≡ lookup k r.buf

  pub record Drained (P : ℕ → A) (r : Reorder A) (result : Reorder A × List A) : Type 0 where
    pub count : ℕ
    pub handed : result.1 ≡ segment P r.expect count
    pub up_to : result.0.expect ≡ r.expect + count
    pub inv : Inv P result.0
    pub keeps : Keeps r result.0

  abbrev next : Reorder A → Reorder A
  next r = record r { buf = erase r.expect r.buf; expect = (r.expect + 1) % u64_mod }

  next-Draining :
      (P : ℕ → A) (r : Reorder A) (v : A)
      → Draining P r
      → lookup r.expect r.buf ≡ some v
      → Draining P (next r)
  next-Draining P r v d e = record {
    distinct = erase-Distinct r.expect r.buf d.distinct;
    started = omega (arith, d.entries r.expect v e);
    fits = omega (arith, d.entries r.expect v e);
    entries = λ k w f.
        ground
          (arith, lookup-erase r.expect k r.buf d.distinct, d.entries k w, d.entries r.expect v e);
  }

  drain-Drained :
      (P : ℕ → A) (fuel : ℕ) (r : Reorder A)
      → Draining P r
      → length r.buf < fuel
      → Drained P r (drain fuel r)
  unfolding drain
  drain-Drained P zero r d h = absurd (omega arith)
  drain-Drained P (suc fuel) r d h = elim (Option-cases (lookup r.expect r.buf)) [
    | inl e ↦
        rw (e, drain)
          (record {
            count = 0;
            handed = refl;
            up_to = omega arith;
            inv = record { base = d; waiting = e };
            keeps = λ k _. refl;
          })
    | inr (v, e) ↦
        let rest =
          drain-Drained P fuel (next r) (next-Draining P r v d e)
            (omega (arith, length-erase r.expect v r.buf e)) in
        let en = d.entries r.expect v e in
        rw (e, drain)
          (record {
            count = suc rest.count;
            handed = ground (arith, rest.handed, en);
            up_to = omega (arith, rest.up_to, en);
            inv = rest.inv;
            keeps = λ k g.
                ground
                  (arith, rest.keeps k g, rest.up_to, en, lookup-erase r.expect k r.buf d.distinct);
          })
  ]

  pub contiguous-Drained :
      (P : ℕ → A) (r : Reorder A) → Draining P r → Drained P r (drain_contiguous r)
  unfolding drain_contiguous
  contiguous-Drained P r d = drain-Drained P (suc (length r.buf)) r d (omega arith)

  -- What `push` and `flushExpired` promise.
  pub record Promise (P : ℕ → A) (r : Reorder A) (result : Reorder A × List A) : Type 0 where
    pub delivers : Delivers P r result
    pub inv : Inv P result.0

  pub settle-Inv : (P : ℕ → A) (restart : ℕ) (r : Reorder A) → Inv P r → Inv P (settle restart r)
  unfolding settle
  settle-Inv P restart r v = record {
    base = record {
      distinct = v.base.distinct;
      started = v.base.started;
      fits = v.base.fits;
      entries = v.base.entries;
    };
    waiting = v.waiting;
  }

  -- Past an expected number that is delivered, the rest of the buffer is ready to drain.
  pub step-Draining :
      (P : ℕ → A) (r : Reorder A)
      → Inv P r
      → r.expect + 1 < u64_mod
      → Draining P (record r { expect = (r.expect + 1) % u64_mod })
  step-Draining P r v h = record {
    distinct = v.base.distinct;
    started = omega arith;
    fits = omega arith;
    entries = λ k w f. ground (arith, v.base.entries k w f, v.waiting);
  }

  pub deliver-Promise :
      (P : ℕ → A) (r : Reorder A) (payload : A)
      → Inv P r
      → r.expect + 1 < u64_mod
      → payload ≡ P r.expect
      → Promise P r (deliver r payload)
  unfolding deliver
  deliver-Promise P r payload v h e =
      let s = record r { expect = (r.expect + 1) % u64_mod } in
      let d = contiguous-Drained P s (step-Draining P r v h) in
      record {
        delivers = record {
          start = r.expect;
          count = suc d.count;
          handed = ground (arith, d.handed);
          not_before = omega arith;
          up_to = unfold settle in omega (arith, d.up_to);
        };
        inv = settle-Inv P _ _ d.inv;
      }

  -- A call that hands nothing on and leaves `expect` alone.
  pub quiet : (P : ℕ → A) (r s : Reorder A) → s.expect ≡ r.expect → Inv P s → Promise P r (s, [])
  quiet P r s e v = record {
    delivers = record {
      start = r.expect;
      count = 0;
      handed = refl;
      not_before = omega arith;
      up_to = omega arith;
    };
    inv = v;
  }

  -- A promise made from further on holds from here.
  pub jump :
      (P : ℕ → A) (r s : Reorder A) (result : Reorder A × List A)
      → r.expect ≤ s.expect
      → Promise P s result
      → Promise P r result
  jump P r s result h p = record {
    delivers = record {
      start = p.delivers.start;
      count = p.delivers.count;
      handed = p.delivers.handed;
      not_before = omega (arith, p.delivers.not_before);
      up_to = p.delivers.up_to;
    };
    inv = p.inv;
  }

  pub hold-Inv :
      (P : ℕ → A) (now : ℕ) (r : Reorder A) (seq : ℕ) (payload : A)
      → Inv P r
      → r.expect < seq
      → seq < r.expect + reorder_window
      → seq + 1 < u64_mod
      → payload ≡ P seq
      → Inv P (hold now r seq payload)
  unfolding hold
  hold-Inv P now r seq payload v lo hi top e = record {
    base = record {
      distinct = insert-Distinct seq payload r.buf v.base.distinct;
      started = v.base.started;
      fits = v.base.fits;
      entries = λ k w f. ground (arith, lookup-insert seq k payload r.buf, v.base.entries k w);
    };
    waiting = ground (arith, lookup-insert seq r.expect payload r.buf, v.waiting);
  }

  -- The state in which `push` calls itself over a gap, and what that call gives.
  abbrev pub skipped : Reorder A → ℕ → Reorder A
  skipped r seq = record r { gaps = r.gaps + 1; expect = seq; buf = []; first = 0 }

  pub skipped-Inv :
      (P : ℕ → A) (r : Reorder A) (seq : ℕ) → 0 < seq → seq < u64_mod → Inv P (skipped r seq)
  unfolding lookup
  skipped-Inv P r seq h k = record {
    base = record { distinct = tt; started = h; fits = k; entries = λ j w f. absurd (cc) };
    waiting = refl;
  }

  pub recount :
      (P : ℕ → A) (r : Reorder A) (first l duplicates gaps : ℕ)
      → Inv P r
      → Inv P (record r { first = first; late = l; duplicates = duplicates; gaps = gaps })
  recount P r first l duplicates gaps v = record {
    base = record {
      distinct = v.base.distinct;
      started = v.base.started;
      fits = v.base.fits;
      entries = v.base.entries;
    };
    waiting = v.waiting;
  }

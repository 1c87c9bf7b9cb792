-- ===== src/Balancer/Dial.antt =====
-- A dial fails only when every member has failed, and its result is a member that answered.
use mathlib.Core.Logic.Or
use mathlib.Core.Bool.{Bool-set}
use mathlib.Core.List.{Mem, mem-cons, mem-cons_self, mem-cons_of_mem, not-mem-nil}
use mathlib.Core.List.Perm
use tamizdat.Prelude.{
  true, false, ℕ, Bool, Option, List, ◌≡◌, none, some, ◌∷◌, ◌↔◌, arith, Bool-cases, ◌<◌, inl,
  length, [], Option-cases, inr, ◌≤◌, ◌+◌, suc, zero,
}
use native.Mathlib.Bridge.{le_prop}
use tamizdat.Balancer.{Snapshot, Balancer, ordered, note_failure, dial_loop, dial}
use tamizdat.Balancer.Order.{indices, ordered-perm}
use mathlib.Core.Path.{subst}
use native.Mathlib.Decide.{ℕ_discrete}

mem-indices : (lo n j : ℕ) → lo ≤ j → j < lo + n → Mem j (indices lo n)
unfolding indices
mem-indices lo zero j l h = absurd (omega arith)
mem-indices lo (suc n) j l h = elim (ℕ_discrete lo j) [
  | yes same ↦ subst (λ (k : ℕ). Mem k (lo ∷ indices (suc lo) n)) same mem-cons_self
  | no other ↦ mem-cons_of_mem lo (mem-indices (suc lo) n j (omega arith) (omega arith))
]

-- What the loop's error says, where the context has not ended.
dial_loop-none :
    (answers : ℕ → Bool) (fails_at : ℕ → ℕ) (ended : ℕ → Bool) (is : List ℕ) (b : Balancer)
    → ((j : ℕ) → ended j ≡ false)
    → (dial_loop answers fails_at ended is b).1 ≡ none
    → (j : ℕ) → Mem j is
    → answers j ≡ false
unfolding dial_loop
dial_loop-none answers fails_at ended [] b live h j m = absurd (not-mem-nil m)
dial_loop-none answers fails_at ended (i ∷ is) b live h j m =
    let failed = note_failure (fails_at i) i b in
    let first : answers i ≡ false = ground (arith, live i) in
    let more : (dial_loop answers fails_at ended is failed).1 ≡ none = ground (arith, live i) in
    Or.elim (Bool-set (answers j) false) (mem-cons.0 m) (λ (e : j ≡ i). rw e first)
      (dial_loop-none answers fails_at ended is failed live more j)

dial_loop-some :
    (answers : ℕ → Bool) (fails_at : ℕ → ℕ) (ended : ℕ → Bool) (is : List ℕ) (b : Balancer) (i : ℕ)
    → (dial_loop answers fails_at ended is b).1 ≡ some i
    → (answers i ≡ true) × Mem i is
unfolding dial_loop
dial_loop-some answers fails_at ended [] b i h = absurd (cc)
dial_loop-some answers fails_at ended (k ∷ is) b i h =
    let failed = note_failure (fails_at k) k b in
    elim (Bool-cases (answers k)) [
      | inl e ↦
          let same : k ≡ i = ground arith in
          (rw (← same) e, subst (λ (x : ℕ). Mem x (k ∷ is)) same mem-cons_self)
      | inr e ↦ elim (Bool-cases (ended k)) [
        | inl f ↦ absurd (ground arith)
        | inr f ↦
            let r = dial_loop-some answers fails_at ended is failed i (ground arith) in
            (r.0, mem-cons_of_mem k r.1)
      ]
    ]

mem-indices_lt : (lo n j : ℕ) → Mem j (indices lo n) → j < lo + n
unfolding indices
mem-indices_lt lo zero j m = absurd (not-mem-nil m)
mem-indices_lt lo (suc n) j m =
    Or.elim le_prop (mem-cons.0 m) (λ (e : j ≡ lo). omega arith)
      (λ (r : Mem j (indices (suc lo) n)). omega (arith, mem-indices_lt (suc lo) n j r))

-- While the caller's context lasts, in both modes: a dial fails exactly when no member of the balancer answers.
pub dial-none_iff :
    (now : ℕ) (snap : ℕ → Option Snapshot) (answers : ℕ → Bool) (fails_at : ℕ → ℕ)
    (ended : ℕ → Bool) (b : Balancer)
    → ((j : ℕ) → ended j ≡ false)
    → ((dial now snap answers fails_at ended b).1 ≡ none)
      ↔ ((j : ℕ) → j < length b.members → answers j ≡ false)
unfolding dial
dial-none_iff now snap answers fails_at ended b live =
    let order = ordered now snap b in
    let perm = ordered-perm now snap b in
    (
      λ h j lt.
          dial_loop-none answers fails_at ended order.1 order.0 live h j (
            (Perm.mem_iff perm).1 (mem-indices 0 (length b.members) j (omega arith) (omega arith))),
      λ all. elim (Option-cases (dial_loop answers fails_at ended order.1 order.0).1) [
        | inl e ↦ e
        | inr (i, e) ↦
            let r = dial_loop-some answers fails_at ended order.1 order.0 i e in
            let lt = mem-indices_lt 0 (length b.members) i ((Perm.mem_iff perm).0 r.1) in
            absurd (ground (arith, r.0, all i (omega (arith, lt))))
      ],
    )

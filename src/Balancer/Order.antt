-- ===== src/Balancer/Order.antt =====
-- Every member is tried once: the order is a permutation of the members.
use tamizdat.Prelude.{true, false, ◌^◌, Bool, ◌==◌, if◌then◌else◌}
use mathlib.Core.List.{Perm, perm_middle, perm_append_comm}
use mathlib.Core.List.Perm
use tamizdat.Balancer.{
  Snapshot, Member, Balancer, Sorted, note_high, alive_pass, insert_by, sort_stable, indices_of,
  ordered_alive, rotate_from, ordered,
}
use tamizdat.Prelude.{
  ℕ, List, [], ◌∷◌, ◌++◌, Option, suc, Bool-cases, length, ltb, zero, inl, inr, Option-cases, ◌+◌,
  ◌≤◌, ◌≡◌, arith, ◌-◌, refl, ◌%◌, ◌<◌, ap, sym, ◌∙◌,
}
use mathlib.Core.Path.{subst}

-- `n` indices from `lo` on.
unfoldable pub indices : ℕ → ℕ → List ℕ
indices lo zero = []
indices lo (suc n) = lo ∷ indices (suc lo) n

indices-insert_by :
    (x : ℕ × ℕ) (ys : List (ℕ × ℕ)) → Perm (indices_of (insert_by x ys)) (indices_of (x ∷ ys))
unfolding insert_by
indices-insert_by x [] = Perm.refl (x.0 ∷ [])
indices-insert_by (i, r) ((j, q) ∷ ys) = elim (Bool-cases (ltb q r)) [
  | inl e ↦
      rw e (Perm.trans (Perm.cons j (indices-insert_by (i, r) ys)) (Perm.swap i j (indices_of ys)))
  | inr e ↦ rw e (Perm.refl (i ∷ j ∷ indices_of ys))
]

indices-sort_stable : (xs : List (ℕ × ℕ)) → Perm (indices_of (sort_stable xs)) (indices_of xs)
unfolding sort_stable
indices-sort_stable [] = Perm.refl []
indices-sort_stable ((i, r) ∷ xs) =
    Perm.trans (indices-insert_by (i, r) (sort_stable xs)) (Perm.cons i (indices-sort_stable xs))

-- The indices of the three lists.
abbrev shares : Sorted → List ℕ
shares s = s.healthy ++ (indices_of s.high ++ s.cooling)

alive_pass-perm :
    (now : ℕ) (snap : ℕ → Option Snapshot) (b : Balancer) (idx : ℕ) (ms : List Member)
    → Perm (shares (alive_pass now snap b idx ms)) (indices idx (length ms))
unfolding alive_pass indices
alive_pass-perm now snap b idx [] = Perm.refl []
alive_pass-perm now snap b idx (m ∷ ms) =
    let s = alive_pass now snap b (suc idx) ms in
    let ih = Perm.cons idx (alive_pass-perm now snap b (suc idx) ms) in
    elim (Bool-cases (ltb now m.cooldown)) [
      | inl e ↦ rw e (
          Perm.trans (Perm.append_left s.healthy (perm_middle (indices_of s.high) s.cooling))
            (Perm.trans (perm_middle s.healthy (indices_of s.high ++ s.cooling)) ih))
      | inr e ↦ elim (Option-cases (note_high b (snap idx) m.high_rtt).1) [
        | inl f ↦ rw (e, f) ih
        | inr (rtt, f) ↦
            rw (e, f) (Perm.trans (perm_middle s.healthy (indices_of s.high ++ s.cooling)) ih)
      ]
    ]

ordered_alive-perm :
    (now : ℕ) (snap : ℕ → Option Snapshot) (b : Balancer)
    → Perm (ordered_alive now snap b).1 (indices 0 (length b.members))
unfolding ordered_alive
ordered_alive-perm now snap b =
    let s = alive_pass now snap b 0 b.members in
    let all = alive_pass-perm now snap b 0 b.members in
    elim (Bool-cases (ltb 1 (length s.high))) [
      | inl e ↦ rw e (
          Perm.trans
            (Perm.append_left s.healthy (Perm.append_right s.cooling (indices-sort_stable s.high)))
            all)
      | inr e ↦ rw e all
    ]

indices-append : (lo a b : ℕ) → indices lo (a + b) ≡ indices lo a ++ indices (lo + a) b
unfolding indices
indices-append lo zero b = let e : lo + 0 ≡ lo = omega arith in ground (arith, e)
indices-append lo (suc a) b =
    let e : suc a + b ≡ suc (a + b) = omega arith in
    let f : lo + suc a ≡ suc lo + a = omega arith in
    rw (e, f) (ap (λ (t : List ℕ). lo ∷ t) (indices-append (suc lo) a b))

-- The rounds before the index comes round, and those behind.
rotate_low :
    (k i start n lo : ℕ) → lo ≡ start + i → lo + k ≤ n → rotate_from k i start n ≡ indices lo k
unfolding rotate_from indices
rotate_low zero i start n lo e h = refl
rotate_low (suc k) i start n lo e h =
    let m : (start + i) % n ≡ lo = grind arith in
    ap (λ (x : ℕ). x ∷ rotate_from k (suc i) start n) m
    ∙ ap (λ (t : List ℕ). lo ∷ t)
        (rotate_low k (suc i) start n (suc lo) (omega arith) (omega arith))

rotate_high :
    (k i start n lo : ℕ) → lo + n ≡ start + i → lo + k ≤ n → rotate_from k i start n ≡ indices lo k
unfolding rotate_from indices
rotate_high zero i start n lo e h = refl
rotate_high (suc k) i start n lo e h =
    let m : (start + i) % n ≡ lo = rw (← e) (grind arith) in
    ap (λ (x : ℕ). x ∷ rotate_from k (suc i) start n) m
    ∙ ap (λ (t : List ℕ). lo ∷ t)
        (rotate_high k (suc i) start n (suc lo) (omega arith) (omega arith))

rotate-append :
    (a b i start n : ℕ)
    → rotate_from (a + b) i start n ≡ rotate_from a i start n ++ rotate_from b (i + a) start n
unfolding rotate_from
rotate-append zero b i start n = let e : i + 0 ≡ i = omega arith in ground (arith, e)
rotate-append (suc a) b i start n =
    let e : suc a + b ≡ suc (a + b) = omega arith in
    let f : i + suc a ≡ suc i + a = omega arith in
    rw (e, f) (ap (λ (t : List ℕ). (start + i) % n ∷ t) (rotate-append a b (suc i) start n))

rotate_whole :
    (start n : ℕ)
    → start < n
    → rotate_from n 0 start n ≡ indices start (n - start) ++ indices 0 start
rotate_whole start n h =
    let whole : n ≡ (n - start) + start = omega arith in
    ap (λ (k : ℕ). rotate_from k 0 start n) whole
    ∙ rotate-append (n - start) start 0 start n
    ∙ ap (λ (t : List ℕ). t ++ rotate_from start (0 + (n - start)) start n)
        (rotate_low (n - start) 0 start n start (omega arith) (omega arith))
    ∙ ap (λ (t : List ℕ). indices start (n - start) ++ t)
        (rotate_high start (0 + (n - start)) start n 0 (omega arith) (omega arith))

rotate-perm : (start n : ℕ) → start < n → Perm (rotate_from n 0 start n) (indices 0 n)
rotate-perm start n h =
    let whole : start + (n - start) ≡ n = omega arith in
    let cut : indices 0 start ++ indices start (n - start) ≡ indices 0 n =
      ap (λ (k : ℕ). indices 0 start ++ indices k (n - start)) (omega arith)
      ∙ sym (indices-append 0 start (n - start))
      ∙ ap (λ (k : ℕ). indices 0 k) whole in
    subst (λ (t : List ℕ). Perm t (indices 0 n)) (sym (rotate_whole start n h))
      (subst (λ (t : List ℕ). Perm (indices start (n - start) ++ indices 0 start) t) cut
        (perm_append_comm (indices start (n - start)) (indices 0 start)))

either-perm :
    (c : Bool) (x y : Balancer × List ℕ) (l : List ℕ)
    → Perm x.1 l
    → Perm y.1 l
    → Perm (if c then x else y).1 l
either-perm true x y l p q = p
either-perm false x y l p q = q

-- In both modes, the order in which the members are tried holds each member once.
pub ordered-perm :
    (now : ℕ) (snap : ℕ → Option Snapshot) (b : Balancer)
    → Perm (ordered now snap b).1 (indices 0 (length b.members))
unfolding ordered
ordered-perm now snap b =
    let n = length b.members in
    let robin : Balancer = record b { next = (b.next + 1) % 2 ^ 64 } in
    elim (Bool-cases (n == 0)) [
      | inl e ↦
          let z : n ≡ 0 = ground arith in
          rw e (subst (λ (k : ℕ). Perm [] (indices 0 k)) (sym z) (unfold indices in Perm.refl []))
      | inr e ↦
          let low : b.next % n < n = grind arith in
          rw e (
            either-perm b.is_alive_mode (ordered_alive now snap b)
              (robin, rotate_from n 0 (b.next % n) n) (indices 0 n) (ordered_alive-perm now snap b)
              (rotate-perm (b.next % n) n low))
    ]

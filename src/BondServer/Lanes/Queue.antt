-- ===== src/BondServer/Lanes/Queue.antt =====
-- What waits for the WireGuard socket.
use tamizdat.BondServer.Lanes.{Lanes, enqueue_wg}
use tamizdat.Prelude.Bytes.{Bytes}
use tamizdat.Prelude.{
  ℕ, List, ◌∷◌, [], ◌++◌, length, take, ltb, arith, ◌≡◌, refl, ◌≤◌, ◌+◌, ◌-◌, Bool-cases, inl, inr,
  ap, ◌∙◌, append_assoc, append-nil, take-append, length-append, suc, sym, zero, if◌then◌else◌,
}

take_all : {A : Type 0} (n : ℕ) (xs : List A) → length xs ≤ n → take n xs ≡ xs
take_all zero [] h = refl
take_all zero (x ∷ xs) h = absurd (omega arith)
take_all (suc n) [] h = refl
take_all (suc n) (x ∷ xs) h = ap (λ t. x ∷ t) (take_all n xs (omega arith))

take_full : {A : Type 0} (n : ℕ) (xs ys : List A) → length xs ≡ n → take n (xs ++ ys) ≡ xs
take_full n xs ys h = ap (λ (k : ℕ). take k (xs ++ ys)) (sym h) ∙ take-append xs ys

abbrev queued : Bytes → Lanes → Lanes
queued p l = record l { wg_write = l.wg_write ++ p ∷ [] }

abbrev overflowed : Lanes → Lanes
overflowed l = record l { wg_write_drop = l.wg_write_drop + 1 }

enqueue_wg_first :
    (p : Bytes) (ps : List Bytes) (l : Lanes)
    → enqueue_wg (p ∷ ps) l
      ≡ enqueue_wg ps (if ltb (length l.wg_write) 512 then queued p l else overflowed l)
unfolding enqueue_wg
enqueue_wg_first p ps l = refl

-- A queue within its capacity takes the packets in order as far as it has room, and counts the others.
pub enqueue_wg-take :
    (ps : List Bytes) (l : Lanes)
    → length l.wg_write ≤ 512
    → ((enqueue_wg ps l).wg_write ≡ take 512 (l.wg_write ++ ps))
      × ((enqueue_wg ps l).wg_write_drop ≡ l.wg_write_drop + (length l.wg_write + length ps - 512))
enqueue_wg-take [] l h =
    unfold enqueue_wg in
    (sym (ap (take 512) (append-nil l.wg_write) ∙ take_all 512 l.wg_write h), omega arith)
enqueue_wg-take (p ∷ ps) l h = elim (Bool-cases (ltb (length l.wg_write) 512)) [
  | inl free ↦
      let grown = length-append l.wg_write (p ∷ []) in
      let room : length (l.wg_write ++ p ∷ []) ≤ 512 = ground (arith, grown) in
      let rest = enqueue_wg-take ps (queued p l) room in
      rw (enqueue_wg_first p ps l, free)
        (rest.0 ∙ ap (take 512) (append_assoc l.wg_write (p ∷ []) ps), omega (arith, rest.1, grown))
  | inr full ↦
      let size : length l.wg_write ≡ 512 = ground arith in
      let rest = enqueue_wg-take ps (overflowed l) h in
      rw (enqueue_wg_first p ps l, full)
        (
          rest.0 ∙ take_full 512 l.wg_write ps size ∙ sym (take_full 512 l.wg_write (p ∷ ps) size),
          omega (arith, rest.1, size),
        )
]

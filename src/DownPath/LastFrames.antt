-- ===== src/DownPath/LastFrames.antt =====
-- The ring of the replay is the list of the last 32 frames.
use tamizdat.DownPath.{
  DownFrame, ReplayRing, slot, push_replay, find_exact, find_closest, find_replay,
}
use tamizdat.DownPath.Ring.{
  IsRing, new_ring, push_all, frames_from, contents, last_of, push_replay-IsRing, frames_from-snoc,
  slot_new, slot_last, frames_from-room, frames_from-full,
}
use tamizdat.Prelude.{
  ℕ, List, Option, none, some, ◌∷◌, [], ◌++◌, length, drop, leb, ◌==◌, if◌then◌else◌, ◌+◌, ◌-◌, suc,
  zero, false, arith, ◌≡◌, ◌≤◌, ◌<◌, refl, sym, ap, ◌∙◌, Option-cases, inl, inr, length-append,
  append_assoc, append-nil,
}
use mathlib.Core.Path.{subst}
use native.Mathlib.Decide.{dec_lt}

-- What a retransmission should give of a list of frames: the first with the number asked for, or else the first
-- with a later one, or else the newest.
unfoldable pub first_exact : ℕ → List DownFrame → Option DownFrame
first_exact ack [] = none
first_exact ack (f ∷ fs) = let rest = first_exact ack fs in if f.seq == ack then some f else rest

unfoldable pub first_closest : ℕ → List DownFrame → Option DownFrame
first_closest ack [] = none
first_closest ack (f ∷ fs) =
    let rest = first_closest ack fs in if leb ack f.seq then some f else rest

unfoldable pub newest : List DownFrame → Option DownFrame
newest [] = none
newest (f ∷ []) = some f
newest (f ∷ g ∷ fs) = newest (g ∷ fs)

unfoldable pub wanted : ℕ → List DownFrame → Option DownFrame
unfolding first_exact first_closest newest
wanted ack fs = elim (first_exact ack fs) [
  | some f ↦ some f
  | none ↦ elim (first_closest ack fs) [ some f ↦ some f | none ↦ newest fs ]
]

length-frames_from : (n i : ℕ) (r : ReplayRing) → length (frames_from n i r) ≡ n
unfolding frames_from
length-frames_from zero i r = refl
length-frames_from (suc n) i r = ap suc (length-frames_from n (suc i) r)

last_of_short : (n : ℕ) (xs : List DownFrame) → length xs ≤ n → last_of n xs ≡ xs
unfolding last_of
last_of_short n xs h = let z : length xs - n ≡ 0 = omega arith in ap (λ (k : ℕ). drop k xs) z

last_of-cons :
    (n : ℕ) (x : DownFrame) (xs : List DownFrame)
    → n ≤ length xs
    → last_of n (x ∷ xs) ≡ last_of n xs
unfolding last_of
last_of-cons n x xs h =
    let z : suc (length xs) - n ≡ suc (length xs - n) = omega arith in
    ap (λ (k : ℕ). drop k (x ∷ xs)) z

last_of-append :
    (n : ℕ) (xs ys : List DownFrame) → last_of n (last_of n xs ++ ys) ≡ last_of n (xs ++ ys)
last_of-append n [] ys =
    ap (λ (t : List DownFrame). last_of n (t ++ ys)) (last_of_short n [] (omega arith))
last_of-append n (x ∷ xs) ys = elim (dec_lt (length xs) n) [
  | yes h ↦
      ap (λ (t : List DownFrame). last_of n (t ++ ys)) (last_of_short n (x ∷ xs) (omega arith))
  | no h ↦
      ap (λ (t : List DownFrame). last_of n (t ++ ys)) (last_of-cons n x xs (omega arith))
      ∙ last_of-append n xs ys
      ∙ sym (last_of-cons n x (xs ++ ys) (let l = length-append xs ys in omega arith))
]

count_room : (f : DownFrame) (r : ReplayRing) → r.count < 32 → (push_replay f r).count ≡ suc r.count
unfolding push_replay
count_room f r c = ground arith

count_full : (f : DownFrame) (r : ReplayRing) → r.count ≡ 32 → (push_replay f r).count ≡ 32
unfolding push_replay
count_full f r c = ground arith

pub contents-push_replay :
    (f : DownFrame) (r : ReplayRing)
    → IsRing r
    → contents (push_replay f r) ≡ last_of 32 (contents r ++ f ∷ [])
unfolding frames_from
contents-push_replay f r k = elim (dec_lt r.count 32) [
  | yes c ↦
      let p = push_replay f r in
      let size = length-append (contents r) (f ∷ []) in
      let held = length-frames_from r.count 0 r in
      ap (λ (k : ℕ). frames_from k 0 p) (count_room f r c)
      ∙ frames_from-snoc r.count 0 p
      ∙ rw (frames_from-room r.count 0 f r c (omega arith))
          (ap (λ (k : ℕ). contents r ++ slot k p ∷ []) (omega arith))
      ∙ ap (λ (g : DownFrame). contents r ++ g ∷ []) (slot_new f r k c)
      ∙ sym (last_of_short 32 (contents r ++ f ∷ []) (omega arith))
  | no c ↦
      let p = push_replay f r in
      let e : r.count ≡ 32 = omega (arith, k.in_count) in
      let size = length-append (frames_from 31 1 r) (f ∷ []) in
      let held = length-frames_from 31 1 r in
      ap (λ (k : ℕ). frames_from k 0 p) (count_full f r e)
      ∙ frames_from-snoc 31 0 p
      ∙ ap (λ (t : List DownFrame). t ++ slot 31 p ∷ []) (frames_from-full 31 0 f r e (omega arith))
      ∙ ap (λ (g : DownFrame). frames_from 31 1 r ++ g ∷ []) (slot_last f r k e)
      ∙ sym (last_of_short 32 (frames_from 31 1 r ++ f ∷ []) (omega arith))
      ∙ sym (last_of-cons 32 (slot 0 r) (frames_from 31 1 r ++ f ∷ []) (omega arith))
      ∙ ap (λ (k : ℕ). last_of 32 (frames_from k 0 r ++ f ∷ [])) (sym e)
]

contents-push_all :
    (fs : List DownFrame) (r : ReplayRing)
    → IsRing r
    → contents (push_all fs r) ≡ last_of 32 (contents r ++ fs)
unfolding push_all
contents-push_all [] r k =
    let held = length-frames_from r.count 0 r in
    sym (rw (append-nil (contents r)) (last_of_short 32 (contents r) (omega (arith, k.in_count))))
contents-push_all (f ∷ fs) r k =
    contents-push_all fs (push_replay f r) (push_replay-IsRing f r k)
    ∙ ap (λ (t : List DownFrame). last_of 32 (t ++ fs)) (contents-push_replay f r k)
    ∙ last_of-append 32 (contents r ++ f ∷ []) fs
    ∙ ap (λ (t : List DownFrame). last_of 32 t) (append_assoc (contents r) (f ∷ []) fs)

find_exact_lem :
    (n i ack : ℕ) (r : ReplayRing) → find_exact n i ack r ≡ first_exact ack (frames_from n i r)
unfolding find_exact first_exact frames_from
find_exact_lem zero i ack r = refl
find_exact_lem (suc n) i ack r = rw (find_exact_lem n (suc i) ack r) refl

find_closest_lem :
    (n i ack : ℕ) (r : ReplayRing) → find_closest n i ack r ≡ first_closest ack (frames_from n i r)
unfolding find_closest first_closest frames_from
find_closest_lem zero i ack r = refl
find_closest_lem (suc n) i ack r = rw (find_closest_lem n (suc i) ack r) refl

newest-frames_from :
    (n i : ℕ) (r : ReplayRing) → newest (frames_from (suc n) i r) ≡ some (slot (i + n) r)
unfolding newest frames_from
newest-frames_from zero i r = ap (λ (k : ℕ). some (slot k r)) (omega arith)
newest-frames_from (suc n) i r =
    newest-frames_from n (suc i) r ∙ ap (λ (k : ℕ). some (slot k r)) (omega arith)

pub wanted_exact :
    (ack : ℕ) (fs : List DownFrame) (f : DownFrame)
    → first_exact ack fs ≡ some f
    → wanted ack fs ≡ some f
unfolding wanted
wanted_exact ack fs f e = rw (e, wanted) refl

pub wanted_closest :
    (ack : ℕ) (fs : List DownFrame) (f : DownFrame)
    → first_exact ack fs ≡ none
    → first_closest ack fs ≡ some f
    → wanted ack fs ≡ some f
unfolding wanted
wanted_closest ack fs f e c = rw (e, wanted) rw c refl

pub wanted-newest :
    (ack : ℕ) (fs : List DownFrame)
    → first_exact ack fs ≡ none
    → first_closest ack fs ≡ none
    → wanted ack fs ≡ newest fs
unfolding wanted
wanted-newest ack fs e c = rw (e, wanted) rw c refl

-- The search over a ring with `n` frames in use.
answer_lem :
    (n ack : ℕ) (r : ReplayRing)
    → (elim (find_exact (suc n) 0 ack r) as (λ o. Option DownFrame) [
      | some f ↦ some f
      | none ↦ elim (find_closest (suc n) 0 ack r) as (λ o. Option DownFrame) [
        | some f ↦ some f
        | none ↦ some (slot n r)
      ]
    ])
      ≡ wanted ack (frames_from (suc n) 0 r)
answer_lem n ack r =
    let last : newest (frames_from (suc n) 0 r) ≡ some (slot n r) =
      newest-frames_from n 0 r ∙ ap (λ (k : ℕ). some (slot k r)) (omega arith) in
    let fs = frames_from (suc n) 0 r in
    elim (Option-cases (first_exact ack fs)) [
      | inr (f, e) ↦ rw (find_exact_lem (suc n) 0 ack r, e) (sym (wanted_exact ack fs f e))
      | inl e ↦ elim (Option-cases (first_closest ack fs)) [
        | inr (g, c) ↦
            rw (find_exact_lem (suc n) 0 ack r, e) rw (find_closest_lem (suc n) 0 ack r, c)
              (sym (wanted_closest ack fs g e c))
        | inl c ↦
            rw (find_exact_lem (suc n) 0 ack r, e) rw (find_closest_lem (suc n) 0 ack r, c)
              (sym (wanted-newest ack fs e c ∙ last))
      ]
    ]

pub find_replay_lem : (ack : ℕ) (r : ReplayRing) → find_replay ack r ≡ wanted ack (contents r)
unfolding find_replay wanted frames_from first_exact first_closest newest
find_replay_lem ack r = elim (dec_lt 0 r.count) [
  | yes h ↦
      let e : suc (r.count - 1) ≡ r.count = omega arith in
      let some_held : (r.count == 0) ≡ false = ground arith in
      rw some_held (
        subst
          (λ (k : ℕ).
            (elim (find_exact k 0 ack r) as (λ o. Option DownFrame) [
              | some f ↦ some f
              | none ↦ elim (find_closest k 0 ack r) as (λ o. Option DownFrame) [
                | some f ↦ some f
                | none ↦ some (slot (r.count - 1) r)
              ]
            ])
            ≡ wanted ack (frames_from k 0 r))
          e (answer_lem (r.count - 1) ack r))
  | no h ↦ let z : r.count ≡ 0 = omega arith in rw z refl
]

pub new_ring-IsRing : IsRing new_ring
unfolding new_ring
new_ring-IsRing = record { size = refl; in_head = omega arith; in_count = omega arith }

-- After any pushes on a new ring, `findReplay` gives what should be retransmitted of the last 32 frames: the first
-- with the number asked for, or else the first with a later one, or else the newest.
pub find_replay-push_all :
    (ack : ℕ) (fs : List DownFrame)
    → find_replay ack (push_all fs new_ring) ≡ wanted ack (last_of 32 fs)
unfolding new_ring frames_from
find_replay-push_all ack fs =
    find_replay_lem ack (push_all fs new_ring)
    ∙ ap (λ (t : List DownFrame). wanted ack t) (contents-push_all fs new_ring new_ring-IsRing)

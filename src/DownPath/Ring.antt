-- ===== src/DownPath/Ring.antt =====
-- The ring of the replay, against the list of the last frames.
use tamizdat.DownPath.{DownFrame, no_frame, replay_ring_size, ReplayRing, slot, push_replay}
use tamizdat.Prelude.{
  ℕ, List, ◌∷◌, [], ◌++◌, length, drop, ◌==◌, ◌%◌, ◌+◌, ◌-◌, suc, zero, false, arith, ◌≡◌, ◌≤◌, ◌<◌,
  refl, ap, ◌∙◌, length-set, get_or-set_ne, get_or-set_self,
}

-- A ring with all its slots, the empty one, and the pushes of a list of frames.
pub record IsRing (r : ReplayRing) : Type 0 where
  pub size : length r.slots ≡ replay_ring_size
  pub in_head : r.head < replay_ring_size
  pub in_count : r.count ≤ replay_ring_size

replicate : ℕ → List DownFrame
replicate zero = []
replicate (suc n) = no_frame ∷ replicate n

unfoldable pub new_ring : ReplayRing
unfolding replicate
new_ring = record { slots = replicate 32; head = 0; count = 0 }

unfoldable pub push_all : List DownFrame → ReplayRing → ReplayRing
unfolding push_replay
push_all [] r = r
push_all (f ∷ fs) r = push_all fs (push_replay f r)

-- The frames of the ring, from the `i`-th on.
unfoldable pub frames_from : ℕ → ℕ → ReplayRing → List DownFrame
unfolding slot
frames_from zero i r = []
frames_from (suc left) i r = slot i r ∷ frames_from left (suc i) r

abbrev pub contents : ReplayRing → List DownFrame
contents r = frames_from r.count 0 r

-- The last `n` of a list.
unfoldable pub last_of {ℓ} : {A : Type ℓ} → ℕ → List A → List A
last_of n xs = drop (length xs - n) xs

pub push_replay-IsRing : (f : DownFrame) (r : ReplayRing) → IsRing r → IsRing (push_replay f r)
unfolding push_replay
push_replay-IsRing f r k = record {
  size = length-set r.slots ((r.head + r.count) % 32) f ∙ k.size;
  in_head = ground (arith, k.in_head);
  in_count = ground (arith, k.in_count);
}

pub frames_from-snoc :
    (n i : ℕ) (r : ReplayRing) → frames_from (suc n) i r ≡ frames_from n i r ++ slot (i + n) r ∷ []
unfolding frames_from
frames_from-snoc zero i r = ap (λ (k : ℕ). slot k r ∷ []) (omega arith)
frames_from-snoc (suc n) i r =
    let shift : suc i + n ≡ i + suc n = omega arith in
    ap (λ (t : List DownFrame). slot i r ∷ t)
      (frames_from-snoc n (suc i) r
        ∙ ap (λ (k : ℕ). frames_from n (suc i) r ++ slot k r ∷ []) shift)

-- While there is room, a push leaves the slots in use alone and fills the next one.
slot_room :
    (i : ℕ) (f : DownFrame) (r : ReplayRing)
    → r.count < 32
    → i < r.count
    → slot i (push_replay f r) ≡ slot i r
unfolding slot push_replay
slot_room i f r c h =
    let open_ring : (r.count == 32) ≡ false = ground arith in
    rw open_ring (
      get_or-set_ne r.slots ((r.head + r.count) % 32) ((r.head + i) % 32) f no_frame
        (λ e. omega arith))

pub slot_new :
    (f : DownFrame) (r : ReplayRing) → IsRing r → r.count < 32 → slot r.count (push_replay f r) ≡ f
unfolding slot push_replay
slot_new f r k c =
    let open_ring : (r.count == 32) ≡ false = ground arith in
    rw open_ring
      (get_or-set_self r.slots ((r.head + r.count) % 32) f no_frame (rw k.size (omega arith)))

-- On a full ring, a push moves on by a slot and fills the last one.
slot_full :
    (i : ℕ) (f : DownFrame) (r : ReplayRing)
    → r.count ≡ 32
    → i < 31
    → slot i (push_replay f r) ≡ slot (suc i) r
unfolding slot push_replay
slot_full i f r c h =
    let moved : ((r.head + 1) % 32 + i) % 32 ≡ (r.head + suc i) % 32 = omega arith in
    rw (c, moved)
      (get_or-set_ne r.slots ((r.head + 32) % 32) ((r.head + suc i) % 32) f no_frame
        (λ e. omega arith))

pub slot_last :
    (f : DownFrame) (r : ReplayRing) → IsRing r → r.count ≡ 32 → slot 31 (push_replay f r) ≡ f
unfolding slot push_replay
slot_last f r k c =
    let moved : ((r.head + 1) % 32 + 31) % 32 ≡ (r.head + 32) % 32 = omega arith in
    rw (c, moved)
      (get_or-set_self r.slots ((r.head + 32) % 32) f no_frame (rw k.size (omega arith)))

pub frames_from-room :
    (left i : ℕ) (f : DownFrame) (r : ReplayRing)
    → r.count < 32
    → i + left ≤ r.count
    → frames_from left i (push_replay f r) ≡ frames_from left i r
unfolding frames_from
frames_from-room zero i f r c h = refl
frames_from-room (suc left) i f r c h =
    rw (slot_room i f r c (omega arith), frames_from-room left (suc i) f r c (omega arith)) refl

pub frames_from-full :
    (left i : ℕ) (f : DownFrame) (r : ReplayRing)
    → r.count ≡ 32
    → i + left ≤ 31
    → frames_from left i (push_replay f r) ≡ frames_from left (suc i) r
unfolding frames_from
frames_from-full zero i f r c h = refl
frames_from-full (suc left) i f r c h =
    rw (slot_full i f r c (omega arith), frames_from-full left (suc i) f r c (omega arith)) refl

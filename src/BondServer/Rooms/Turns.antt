-- ===== src/BondServer/Rooms/Turns.antt =====
-- A room's turn tries each of its workers once.
use tamizdat.BondServer.Rooms.{BondWorker, BondRoom, send_to, try_workers, bond_worker_queue}
use tamizdat.BondServer.Rooms.Listed.{Has, Lists}
use tamizdat.Prelude.Assoc.{Assoc, lookup, insert}
use native.Mathlib.Nat.{mod-eq_of_lt, mod-eq-sub-mod, mod-lt}
use tamizdat.Prelude.Bytes.{Bytes}
use tamizdat.Prelude.{
  ℕ, Bool, List, Option, none, some, ◌∷◌, [], ◌++◌, length, get_elem?, ltb, true, false, arith, ◌≡◌,
  refl, Option-cases, Bool-cases, inl, inr, ap, sym, ◌∙◌, ◌%◌, ◌+◌, ◌-◌, ◌<◌, ◌≤◌, suc, zero,
}
use native.Mathlib.Decide.{dec_le, ℕ_discrete}
use mathlib.Core.Path.{subst}

turn_up : (n start t : ℕ) → t < n → start ≤ t → (start + (t - start)) % n ≡ t
turn_up n start t h le = let sum : start + (t - start) ≡ t = omega arith in rw sum (mod-eq_of_lt h)

turn_over : (n start t : ℕ) → start < n → t < n → (start + (n - start + t)) % n ≡ t
turn_over n start t s h =
    let sum : start + (n - start + t) ≡ n + t = omega arith in
    let less : n + t - n ≡ t = omega arith in
    rw sum (mod-eq-sub-mod (omega arith) ∙ rw less (mod-eq_of_lt h))

-- Every place is reached from every start.
pub turn_reaches : (n start t : ℕ) → start < n → t < n → (j : ℕ) × (j < n) × ((start + j) % n ≡ t)
turn_reaches n start t s h = elim (dec_le start t) [
  | yes up ↦ (t - start, omega arith, turn_up n start t h up)
  | no over ↦ (n - start + t, omega arith, turn_over n start t s h)
]

-- The frame behind what waits for the worker.
abbrev pub grown : Bytes → BondWorker → BondWorker
grown frame w = record w { send = w.send ++ frame ∷ [] }

-- The frame has gone to one worker that had room for it.
pub record Sent (frame : Bytes) (room room' : BondRoom) : Type 0 where
  pub number : ℕ
  pub worker : BondWorker
  pub was : lookup number room.workers ≡ some worker
  pub free : length worker.send < bond_worker_queue
  pub now : room'.workers ≡ insert number (grown frame worker) room.workers
  pub order : room'.worker_order ≡ room.worker_order

-- Nothing has changed but the counts.
pub record Unsent (room room' : BondRoom) : Type 0 where
  pub workers : room'.workers ≡ room.workers
  pub order : room'.worker_order ≡ room.worker_order

abbrev pub FullAt : BondRoom → ℕ → Type 0
FullAt room i =
    (k : ℕ) (w : BondWorker)
    → get_elem? room.worker_order i ≡ some k
    → lookup k room.workers ≡ some w
    → bond_worker_queue ≤ length w.send

abbrev pub Tried : Bytes → ℕ → ℕ → ℕ → BondRoom → Option (BondRoom × Bool) → Type 0
Tried frame start offset tries room none = ⊥
Tried frame start offset tries room (some (room', true)) = Sent frame room room'
Tried frame start offset tries room (some (room', false)) =
    Unsent room room'
    × ((j : ℕ)
        → offset ≤ j
        → j < offset + tries
        → FullAt room ((start + j) % length room.worker_order))

pub get_elem?-Has :
    (xs : List ℕ) (i : ℕ) → i < length xs → (x : ℕ) × (get_elem? xs i ≡ some x) × Has x xs
get_elem?-Has [] i h = absurd (omega arith)
get_elem?-Has (x ∷ xs) zero h = (x, refl, inl refl)
get_elem?-Has (x ∷ xs) (suc i) h =
    let (y, e, there) = get_elem?-Has xs i (omega arith) in (y, e, inr there)

pub Has-get_elem? :
    (xs : List ℕ) (x : ℕ) → Has x xs → (i : ℕ) × (i < length xs) × (get_elem? xs i ≡ some x)
Has-get_elem? [] x h = elim h [ ]
Has-get_elem? (y ∷ xs) x (inl e) = (0, omega arith, ap (λ (k : ℕ). some k) e)
Has-get_elem? (y ∷ xs) x (inr h) = let (i, lt, e) = Has-get_elem? xs x h in (suc i, omega arith, e)

-- One try: the worker that stands at the index.
pub listed_worker :
    {V : Type 0} (order : List ℕ) (m : Assoc V) (i : ℕ)
    → Lists order m
    → i < length order
    → (k : ℕ) × (w : V) × (get_elem? order i ≡ some k) × (lookup k m ≡ some w)
listed_worker order m i v h =
    let (k, e, there) = get_elem?-Has order i h in
    elim (Option-cases (lookup k m)) [
      | inl missing ↦ absurd (v.there k there missing)
      | inr (w, f) ↦ (k, w, e, f)
    ]

full_worker :
    (w u : BondWorker) (k j : ℕ)
    → ltb (length w.send) 128 ≡ false
    → some k ≡ some j
    → (room : BondRoom) → lookup k room.workers ≡ some w
    → lookup j room.workers ≡ some u
    → bond_worker_queue ≤ length u.send
full_worker w u k j full same room f h =
    let at : k ≡ j = ground arith in
    let worker : some w ≡ some u = sym f ∙ ap (λ (i : ℕ). lookup i room.workers) at ∙ h in
    let own : w ≡ u = ground arith in
    let send : length w.send ≡ length u.send = ap (λ (x : BondWorker). length x.send) own in
    ground (arith, send)

module _ (frame : Bytes) (payload_len start : ℕ) where
  abbrev dropped : BondRoom → BondRoom
  dropped room = record room { drops = room.drops + 1 }

  abbrev place : BondRoom → ℕ → ℕ
  place room offset = (start + offset) % length room.worker_order

  try_workers_free :
      (tries offset k : ℕ) (w : BondWorker) (room : BondRoom)
      → get_elem? room.worker_order (place room offset) ≡ some k
      → lookup k room.workers ≡ some w
      → ltb (length w.send) 128 ≡ true
      → try_workers (suc tries) frame payload_len start offset room
        ≡ some (send_to frame payload_len (place room offset) k w room, true)
  unfolding try_workers
  try_workers_free tries offset k w room e f free = rw (e, f, try_workers) (rw free refl)

  try_workers_full :
      (tries offset k : ℕ) (w : BondWorker) (room : BondRoom)
      → get_elem? room.worker_order (place room offset) ≡ some k
      → lookup k room.workers ≡ some w
      → ltb (length w.send) 128 ≡ false
      → try_workers (suc tries) frame payload_len start offset room
        ≡ try_workers tries frame payload_len start (offset + 1) (dropped room)
  unfolding try_workers
  try_workers_full tries offset k w room e f full = rw (e, f, try_workers) (rw full refl)

  sent_Tried :
      (tries offset index k : ℕ) (w : BondWorker) (room : BondRoom)
      → lookup k room.workers ≡ some w
      → ltb (length w.send) 128 ≡ true
      → Tried frame start offset tries room (some (send_to frame payload_len index k w room, true))
  unfolding send_to
  sent_Tried tries offset index k w room f free = record {
    number = k;
    worker = w;
    was = f;
    free = ground arith;
    now = refl;
    order = refl;
  }

  -- A worker that is full, and the tries behind it.
  next_Tried :
      (tries offset : ℕ) (room : BondRoom) (result : Option (BondRoom × Bool))
      → FullAt room (place room offset)
      → Tried frame start (offset + 1) tries (dropped room) result
      → Tried frame start offset (suc tries) room result
  next_Tried tries offset room none full t = t
  next_Tried tries offset room (some (room', true)) full t = record {
    number = t.number;
    worker = t.worker;
    was = t.was;
    free = t.free;
    now = t.now;
    order = t.order;
  }
  next_Tried tries offset room (some (room', false)) full (u, t) = (
    record { workers = u.workers; order = u.order },
    λ j lo hi. elim (ℕ_discrete offset j) [
      | yes here ↦ subst (λ (i : ℕ). FullAt room (place room i)) here full
      | no later ↦ t j (omega (arith, later)) (omega (arith, later))
    ],
  )

  pub try_workers-Tried :
      (tries offset : ℕ) (room : BondRoom)
      → Lists room.worker_order room.workers
      → 1 ≤ length room.worker_order
      → Tried frame start offset tries room (try_workers tries frame payload_len start offset room)
  try_workers-Tried zero offset room v pos =
      let none_left : try_workers zero frame payload_len start offset room ≡ some (room, false) =
        unfold try_workers in refl in
      rw none_left (record { workers = refl; order = refl }, λ j lo hi. absurd (omega arith))
  try_workers-Tried (suc tries) offset room v pos =
      let (k, w, e, f) =
        listed_worker room.worker_order room.workers (place room offset) v
          (mod-lt (start + offset) pos) in
      elim (Bool-cases (ltb (length w.send) 128)) [
        | inl free ↦
            rw (try_workers_free tries offset k w room e f free)
              (sent_Tried (suc tries) offset (place room offset) k w room f free)
        | inr full ↦ rw (try_workers_full tries offset k w room e f full) (
            next_Tried tries offset room
              (try_workers tries frame payload_len start (offset + 1) (dropped room))
              (λ j u g h. full_worker w u k j full (sym e ∙ g) room f h)
              (try_workers-Tried tries (offset + 1) (dropped room) v pos))
      ]

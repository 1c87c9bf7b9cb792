-- ===== src/BondServer/Rooms/Order.antt =====
-- A room's whole turn, and the rooms that `schedule` counts as active.
use tamizdat.BondServer.Rooms.{
  BondWorker, BondRoom, try_workers, try_room, bond_worker_queue, active_of,
}
use tamizdat.BondServer.Rooms.Listed.{Has, Lists}
use tamizdat.BondServer.Rooms.Turns.{
  Sent, Unsent, Tried, try_workers-Tried, turn_reaches, Has-get_elem?,
}
use tamizdat.Prelude.Assoc.{Assoc, lookup}
use native.Mathlib.Nat.{mod-lt}
use tamizdat.Prelude.Bytes.{Bytes}
use tamizdat.Prelude.{
  ℕ, Bool, List, Option, none, some, ◌∷◌, [], length, get_elem?, ◌==◌, if◌then◌else◌, true, false,
  arith, ◌≡◌, ◌≢◌, refl, Option-cases, Bool-cases, inl, inr, ap, sym, ◌∙◌, ◌%◌, ◌≤◌, ◌<◌, ==_refl,
}

-- What a room's turn gives: the frame is sent, or all its workers are full.
abbrev pub Turn : Bytes → BondRoom → Option (BondRoom × Bool) → Type 0
Turn frame room none = ⊥
Turn frame room (some (room', true)) = Sent frame room room'
Turn frame room (some (room', false)) =
    Unsent room room'
    × ((k : ℕ) (w : BondWorker)
        → lookup k room.workers ≡ some w
        → bond_worker_queue ≤ length w.send)

Tried-Turn :
    (frame : Bytes) (start : ℕ) (room : BondRoom) (result : Option (BondRoom × Bool))
    → Lists room.worker_order room.workers
    → start < length room.worker_order
    → Tried frame start 0 (length room.worker_order) room result
    → Turn frame room result
Tried-Turn frame start room none v h t = t
Tried-Turn frame start room (some (room', true)) v h t = t
Tried-Turn frame start room (some (room', false)) v h (u, t) = (
  u,
  λ k w e.
      let (i, lt, at) = Has-get_elem? room.worker_order k (v.listed k (λ missing. cc)) in
      let (j, near, there) = turn_reaches (length room.worker_order) start i h lt in
      t j (omega arith) (omega arith) k w (ap (get_elem? room.worker_order) there ∙ at) e,
)

pub try_room-Turn :
    (frame : Bytes) (payload_len : ℕ) (room : BondRoom)
    → Lists room.worker_order room.workers
    → 1 ≤ length room.worker_order
    → Turn frame room (try_room frame payload_len room)
unfolding try_room
try_room-Turn frame payload_len room v pos =
    let some_there : (length room.worker_order == 0) ≡ false = ground arith in
    let start = room.rr % length room.worker_order in
    rw some_there (
      Tried-Turn frame start room
        (try_workers (length room.worker_order) frame payload_len start 0 room) v
        (mod-lt room.rr pos)
        (try_workers-Tried frame payload_len start (length room.worker_order) 0 room v pos))

-- The orders of the rooms and of the workers of each.
pub record IsListed (rooms : Assoc BondRoom) (order : List ℕ) : Type 0 where
  pub all : Lists order rooms
  pub each :
      (k : ℕ) (room : BondRoom) → lookup k rooms ≡ some room → Lists room.worker_order room.workers

some_key :
    {V : Type 0} (m : Assoc V) → (length m == 0) ≡ false → (k : ℕ) × (w : V) × (lookup k m ≡ some w)
unfolding lookup
some_key [] h = absurd (ground arith)
some_key ((k, w) ∷ m) h = (k, w, rw (==_refl k) refl)

-- A room with workers has an order of them, and the other way round.
pub order_of_workers :
    (room : BondRoom)
    → Lists room.worker_order room.workers
    → (length room.workers == 0) ≡ false
    → 1 ≤ length room.worker_order
order_of_workers room v h =
    let (k, w, e) = some_key room.workers h in
    let (i, lt, at) = Has-get_elem? room.worker_order k (v.listed k (λ missing. cc)) in omega arith

-- The rooms with workers, among those of an order.
pub record ActiveOf (rooms : Assoc BondRoom) (order active : List ℕ) : Type 0 where
  pub known : active_of rooms order ≡ some active
  pub filled :
      (k : ℕ)
      → Has k active
      → (room : BondRoom) × (lookup k rooms ≡ some room) × ((length room.workers == 0) ≡ false)
  pub every :
      (k : ℕ) (room : BondRoom)
      → Has k order
      → lookup k rooms ≡ some room
      → (length room.workers == 0) ≡ false
      → Has k active

-- One more room in front.
active_of_cons :
    (rooms : Assoc BondRoom) (id : ℕ) (ids active : List ℕ) (room : BondRoom)
    → lookup id rooms ≡ some room
    → active_of rooms ids ≡ some active
    → active_of rooms (id ∷ ids) ≡ some (if length room.workers == 0 then active else id ∷ active)
unfolding active_of
active_of_cons rooms id ids active room e f = rw (e, f, active_of) refl

same_room :
    (rooms : Assoc BondRoom) (id k : ℕ) (room other : BondRoom)
    → id ≡ k
    → lookup id rooms ≡ some room
    → lookup k rooms ≡ some other
    → length other.workers ≡ length room.workers
same_room rooms id k room other same e f =
    let both : some room ≡ some other = sym e ∙ ap (λ (i : ℕ). lookup i rooms) same ∙ f in
    let at : other ≡ room = ground arith in ap (λ (r : BondRoom). length r.workers) at

idle-ActiveOf :
    (rooms : Assoc BondRoom) (id : ℕ) (ids active : List ℕ) (room : BondRoom)
    → lookup id rooms ≡ some room
    → (length room.workers == 0) ≡ true
    → ActiveOf rooms ids active
    → ActiveOf rooms (id ∷ ids) active
idle-ActiveOf rooms id ids active room e idle a = record {
  known = active_of_cons rooms id ids active room e a.known ∙ rw idle refl;
  filled = a.filled;
  every = λ k other h f busy. elim h [
    | inl same ↦
        let size = same_room rooms id k room other same e f in absurd (ground (arith, size))
    | inr more ↦ a.every k other more f busy
  ];
}

busy-ActiveOf :
    (rooms : Assoc BondRoom) (id : ℕ) (ids active : List ℕ) (room : BondRoom)
    → lookup id rooms ≡ some room
    → (length room.workers == 0) ≡ false
    → ActiveOf rooms ids active
    → ActiveOf rooms (id ∷ ids) (id ∷ active)
busy-ActiveOf rooms id ids active room e busy a = record {
  known = active_of_cons rooms id ids active room e a.known ∙ rw busy refl;
  filled = λ k h. elim h [
    | inl same ↦ (room, ap (λ (i : ℕ). lookup i rooms) (sym same) ∙ e, busy)
    | inr more ↦ a.filled k more
  ];
  every = λ k other h f full. elim h [
    | inl same ↦ inl same
    | inr more ↦ inr (a.every k other more f full)
  ];
}

pub ActiveOf-total :
    (rooms : Assoc BondRoom) (order : List ℕ)
    → ((k : ℕ) → Has k order → lookup k rooms ≢ none)
    → (active : List ℕ) × ActiveOf rooms order active
ActiveOf-total rooms [] h = (
  [],
  record {
    known = unfold active_of in refl;
    filled = λ k there. absurd there;
    every = λ k room there e f. absurd there;
  },
)
ActiveOf-total rooms (id ∷ ids) h =
    let (active, a) = ActiveOf-total rooms ids (λ k there. h k (inr there)) in
    elim (Option-cases (lookup id rooms)) [
      | inl missing ↦ absurd (h id (inl refl) missing)
      | inr (room, e) ↦ elim (Bool-cases (length room.workers == 0)) [
        | inl idle ↦ (active, idle-ActiveOf rooms id ids active room e idle a)
        | inr busy ↦ (id ∷ active, busy-ActiveOf rooms id ids active room e busy a)
      ]
    ]

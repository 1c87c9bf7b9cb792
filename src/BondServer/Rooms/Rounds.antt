-- ===== src/BondServer/Rooms/Rounds.antt =====
-- The loop of `schedule` over the active rooms.
use tamizdat.BondServer.Rooms.{BondWorker, BondRoom, bond_worker_queue}
use tamizdat.BondServer.Rooms.Listed.{Lists, insert_old-Lists}
use tamizdat.BondServer.Rooms.Turns.{Sent, Unsent, grown}
use tamizdat.BondServer.Rooms.Refresh.{worker_at, worker_at_id, worker_before_id, worker_at_other}
use tamizdat.Prelude.Assoc.{Assoc, lookup, insert, lookup-insert, length-insert_old}
use tamizdat.Prelude.Bytes.{Bytes}
use tamizdat.Prelude.{
  ℕ, List, Option, some, length, get_elem?, ◌==◌, if◌then◌else◌, ◌&&◌, ◌≡◌, Bool-cases, inl, inr,
  ap, sym, ◌∙◌, ◌≤◌, ◌<◌, ==_refl,
}
use mathlib.Core.Path.{subst}

-- The frame stands behind what waits for one worker that had room for it, and all other workers are as before.
pub record Delivered (frame : Bytes) (rooms rooms' : Assoc BondRoom) : Type 0 where
  pub room : ℕ
  pub number : ℕ
  pub worker : BondWorker
  pub was : worker_at rooms room number ≡ some worker
  pub free : length worker.send < bond_worker_queue
  pub now :
      (r k : ℕ)
      → worker_at rooms' r k
        ≡ (if room == r && number == k then some (grown frame worker) else worker_at rooms r k)

abbrev pub Unchanged : Assoc BondRoom → Assoc BondRoom → Type 0
Unchanged rooms rooms' = (r k : ℕ) → worker_at rooms' r k ≡ worker_at rooms r k

abbrev pub RoomFull : List ℕ → Assoc BondRoom → ℕ → Type 0
RoomFull active rooms i =
    (r k : ℕ) (w : BondWorker)
    → get_elem? active i ≡ some r
    → worker_at rooms r k ≡ some w
    → bond_worker_queue ≤ length w.send

pub Sent-Lists :
    (frame : Bytes) (room room' : BondRoom)
    → Lists room.worker_order room.workers
    → Sent frame room room'
    → Lists room'.worker_order room'.workers
Sent-Lists frame room room' v s =
    subst (λ (order : List ℕ). Lists order room'.workers) (sym s.order)
      (subst (λ (m : Assoc BondWorker). Lists room.worker_order m) (sym s.now)
        (insert_old-Lists room.worker_order room.workers v s.number (grown frame s.worker)
          (λ missing. cc s.was)))

pub Unsent-Lists :
    (room room' : BondRoom)
    → Lists room.worker_order room.workers
    → Unsent room room'
    → Lists room'.worker_order room'.workers
Unsent-Lists room room' v u =
    subst (λ (order : List ℕ). Lists order room'.workers) (sym u.order)
      (subst (λ (m : Assoc BondWorker). Lists room.worker_order m) (sym u.workers) v)

pub Sent-length :
    (frame : Bytes) (room room' : BondRoom)
    → Sent frame room room'
    → length room'.workers ≡ length room.workers
Sent-length frame room room' s =
    ap (λ (m : Assoc BondWorker). length m) s.now
    ∙ length-insert_old s.number (grown frame s.worker) s.worker room.workers s.was

module _ (frame : Bytes) (rooms : Assoc BondRoom) (id : ℕ) (room room' : BondRoom)
    (e : lookup id rooms ≡ some room) where
  pub Sent-Delivered : Sent frame room room' → Delivered frame rooms (insert id room' rooms)
  Sent-Delivered s = record {
    room = id;
    number = s.number;
    worker = s.worker;
    was = worker_before_id rooms id room room' e id s.number (==_refl id) ∙ s.was;
    free = s.free;
    now = λ r k. elim (Bool-cases (id == r)) [
      | inl same ↦
          let now_there : worker_at (insert id room' rooms) r k ≡ lookup k room'.workers =
            worker_at_id rooms id room room' e r k same in
          let was_there : worker_at rooms r k ≡ lookup k room.workers =
            worker_before_id rooms id room room' e r k same in
          let found : lookup k room'.workers
              ≡ (if s.number == k then some (grown frame s.worker) else lookup k room.workers) =
            ap (lookup k) s.now ∙ lookup-insert s.number k (grown frame s.worker) room.workers in
          rw (now_there, was_there, same) found
      | inr other ↦ rw other (worker_at_other rooms id room room' e r k other)
    ];
  }

  pub Unsent-Unchanged : Unsent room room' → Unchanged rooms (insert id room' rooms)
  Unsent-Unchanged u r k = elim (Bool-cases (id == r)) [
    | inl same ↦
        worker_at_id rooms id room room' e r k same
        ∙ ap (lookup k) u.workers
        ∙ sym (worker_before_id rooms id room room' e r k same)
    | inr other ↦ worker_at_other rooms id room room' e r k other
  ]

-- A delivery behind a round that changes nothing.
pub then-Delivered :
    (frame : Bytes) (rooms rooms' rooms'' : Assoc BondRoom)
    → Unchanged rooms rooms'
    → Delivered frame rooms' rooms''
    → Delivered frame rooms rooms''
then-Delivered frame rooms rooms' rooms'' u d = record {
  room = d.room;
  number = d.number;
  worker = d.worker;
  was = sym (u d.room d.number) ∙ d.was;
  free = d.free;
  now = λ r k.
      d.now r k
      ∙ ap
          (λ (o : Option BondWorker).
            if d.room == r && d.number == k then some (grown frame d.worker) else o)
          (u r k);
}

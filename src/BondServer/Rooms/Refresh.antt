-- ===== src/BondServer/Rooms/Refresh.antt =====
-- A room that is written back with as many workers leaves the orders and the active rooms as they are.
use tamizdat.BondServer.Rooms.{BondWorker, BondRoom, active_of}
use tamizdat.BondServer.Rooms.Listed.{Lists, insert_old-Lists, ==→≡}
use tamizdat.BondServer.Rooms.Order.{IsListed, ActiveOf}
use tamizdat.Prelude.Assoc.{Assoc, lookup, insert, lookup-insert}
use tamizdat.Prelude.{
  ℕ, Bool, List, Option, none, some, ◌∷◌, [], length, ◌==◌, if◌then◌else◌, true, false, arith, ◌≡◌,
  refl, Option-cases, Bool-cases, inl, inr, ap, sym, ◌∙◌,
}
use mathlib.Core.Path.{subst}

-- The worker of a number in the room of a number.
unfoldable pub worker_at : Assoc BondRoom → ℕ → ℕ → Option BondWorker
worker_at rooms r k = elim (lookup r rooms) [ none ↦ none | some room ↦ lookup k room.workers ]

unfoldable pub idle_at : Assoc BondRoom → ℕ → Option Bool
idle_at rooms r = elim (lookup r rooms) [
  | none ↦ none
  | some room ↦ some (length room.workers == 0)
]

idle_at-some :
    (rooms : Assoc BondRoom) (k : ℕ) (room : BondRoom)
    → lookup k rooms ≡ some room
    → idle_at rooms k ≡ some (length room.workers == 0)
unfolding idle_at
idle_at-some rooms k room e = rw (e, idle_at) refl

idle_at-none : (rooms : Assoc BondRoom) (k : ℕ) → lookup k rooms ≡ none → idle_at rooms k ≡ none
unfolding idle_at
idle_at-none rooms k e = rw (e, idle_at) refl

abbrev front : ℕ → Option Bool → Option (List ℕ) → Option (List ℕ)
front id none more = none
front id (some idle) none = none
front id (some idle) (some more) = some (if idle then more else id ∷ more)

active_of-front :
    (rooms : Assoc BondRoom) (id : ℕ) (ids : List ℕ)
    → active_of rooms (id ∷ ids) ≡ front id (idle_at rooms id) (active_of rooms ids)
unfolding active_of idle_at
active_of-front rooms id ids = elim (Option-cases (lookup id rooms)) [
  | inl e ↦ rw (e, active_of, idle_at) refl
  | inr (room, e) ↦ elim (Option-cases (active_of rooms ids)) [
    | inl f ↦ rw (e, f, active_of, idle_at, front) refl
    | inr (more, f) ↦ rw (e, f, active_of, idle_at, front) refl
  ]
]

active_of_same :
    (rooms rooms' : Assoc BondRoom) (order : List ℕ)
    → ((k : ℕ) → idle_at rooms k ≡ idle_at rooms' k)
    → active_of rooms order ≡ active_of rooms' order
active_of_same rooms rooms' [] h = unfold active_of in refl
active_of_same rooms rooms' (id ∷ ids) h =
    active_of-front rooms id ids
    ∙ ap (λ (i : Option Bool). front id i (active_of rooms ids)) (h id)
    ∙ ap (front id (idle_at rooms' id)) (active_of_same rooms rooms' ids h)
    ∙ sym (active_of-front rooms' id ids)

filled_same :
    (rooms rooms' : Assoc BondRoom) (k : ℕ) (room : BondRoom)
    → idle_at rooms k ≡ idle_at rooms' k
    → lookup k rooms' ≡ some room
    → (length room.workers == 0) ≡ false
    → (other : BondRoom) × (lookup k rooms ≡ some other) × ((length other.workers == 0) ≡ false)
filled_same rooms rooms' k room h e busy = elim (Option-cases (lookup k rooms)) [
  | inl missing ↦ absurd (cc (idle_at-none rooms k missing, idle_at-some rooms' k room e))
  | inr (other, f) ↦
      let both : some (length other.workers == 0) ≡ some (length room.workers == 0) =
        sym (idle_at-some rooms k other f) ∙ h ∙ idle_at-some rooms' k room e in
      (other, f, ground arith)
]

module _ (rooms : Assoc BondRoom) (id : ℕ) (room room' : BondRoom)
    (e : lookup id rooms ≡ some room) where
  abbrev after : Assoc BondRoom
  after = insert id room' rooms

  at_id : (r : ℕ) → (id == r) ≡ true → lookup r after ≡ some room'
  at_id r same = lookup-insert id r room' rooms ∙ rw same refl

  pub at_other : (r : ℕ) → (id == r) ≡ false → lookup r after ≡ lookup r rooms
  at_other r other = lookup-insert id r room' rooms ∙ rw other refl

  before_id : (r : ℕ) → (id == r) ≡ true → lookup r rooms ≡ some room
  before_id r same = ap (λ (i : ℕ). lookup i rooms) (sym (==→≡ id r same)) ∙ e

  pub worker_at_id : (r k : ℕ) → (id == r) ≡ true → worker_at after r k ≡ lookup k room'.workers
  unfolding worker_at
  worker_at_id r k same = rw (at_id r same, worker_at) refl

  pub worker_before_id : (r k : ℕ) → (id == r) ≡ true → worker_at rooms r k ≡ lookup k room.workers
  unfolding worker_at
  worker_before_id r k same = rw (before_id r same, worker_at) refl

  pub worker_at_other : (r k : ℕ) → (id == r) ≡ false → worker_at after r k ≡ worker_at rooms r k
  unfolding worker_at
  worker_at_other r k other = rw (at_other r other, worker_at) refl

  module _ (size : length room'.workers ≡ length room.workers) where
    idle_at_after : (r : ℕ) → idle_at after r ≡ idle_at rooms r
    unfolding idle_at
    idle_at_after r = elim (Bool-cases (id == r)) [
      | inl same ↦ rw (at_id r same, before_id r same, idle_at) (rw size refl)
      | inr other ↦ rw (at_other r other, idle_at) refl
    ]

    pub refresh-ActiveOf :
        (order active : List ℕ) → ActiveOf rooms order active → ActiveOf after order active
    refresh-ActiveOf order active a = record {
      known = active_of_same after rooms order idle_at_after ∙ a.known;
      filled = λ k h.
          let (r, f, busy) = a.filled k h in filled_same after rooms k r (idle_at_after k) f busy;
      every = λ k r h f busy.
          let (r0, f0, busy0) = filled_same rooms after k r (sym (idle_at_after k)) f busy in
          a.every k r0 h f0 busy0;
    }

  pub refresh-IsListed :
      (order : List ℕ)
      → Lists room'.worker_order room'.workers
      → IsListed rooms order
      → IsListed after order
  refresh-IsListed order v l = record {
    all = insert_old-Lists order rooms l.all id room' (λ missing. cc);
    each = λ k r f. elim (Bool-cases (id == k)) [
      | inl same ↦
          let at : some room' ≡ some r = sym (at_id k same) ∙ f in
          let own : room' ≡ r = ground arith in
          subst (λ (x : BondRoom). Lists x.worker_order x.workers) own v
      | inr other ↦ l.each k r (sym (at_other k other) ∙ f)
    ];
  }

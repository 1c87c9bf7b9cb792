-- ===== src/BondServer/Reorder/Window.antt =====
-- The loop of `push` brings its number into the window.
use tamizdat.BondServer.Reorder.{PacketReorder, bond_reorder_window, lowest, make_room}
use tamizdat.BondServer.Reorder.Held.{
  held, count, IsOrderly, IsWaiting, collect-none, Releases, then-Hands, held_same,
}
use tamizdat.BondServer.Reorder.Drain.{stay-Releases}
use tamizdat.BondServer.Reorder.Lowest.{held_empty, lowest-eq-zero}
use tamizdat.BondServer.Reorder.Room.{round, Round, round-Round}
use tamizdat.Prelude.{
  ℕ, List, none, [], get_or, ltb, arith, ◌≡◌, Bool-cases, inl, inr, ◌≤◌, ◌+◌, ◌<◌, ◌-◌, ◌^◌, refl,
  Option-cases, suc, ◌%◌, ◌==◌, sym, zero, true, false, ◌++◌,
}
use native.Mathlib.Nat.{le_trans}

lt_of_lt_of_lt_suc : {a b c : ℕ} → a < b → b < suc c → a < c
lt_of_lt_of_lt_suc h k = omega arith

module _ {A : Type 0} where
  -- The number is in the window of the state; nothing is done where it was before.
  pub record Room (r : PacketReorder A) (seq : ℕ) (result : PacketReorder A × List A) : Type 0 where
    pub orderly : IsOrderly result.0
    pub waiting : IsWaiting result.0
    pub releases : Releases r result
    pub low : result.0.next ≤ seq
    pub high : seq < result.0.next + bond_reorder_window
    pub quiet : seq < r.next + bond_reorder_window → result ≡ (r, [])

  jump : ℕ → PacketReorder A → PacketReorder A
  jump seq r = record r { gaps = r.gaps + (seq - r.next); next = seq }

  -- An empty buffer moves to the number at once.
  jump-Room :
      (seq : ℕ) (r : PacketReorder A)
      → IsOrderly r
      → r.next + 256 ≤ seq
      → seq + 1 < 2 ^ 64
      → lowest r ≡ 0
      → Room r seq (jump seq r, [])
  unfolding jump
  jump-Room seq r v far fit z = record {
    orderly = record {
      size = v.size;
      started = omega (arith, v.started);
      fits = omega arith;
      filled = λ i k q f. absurd (lowest-eq-zero r i k q v z f);
      counted = v.counted;
    };
    waiting = elim (Option-cases (get_or r.slots (seq % 256) none)) [
      | inl e ↦ e
      | inr ((k, q), e) ↦ absurd (lowest-eq-zero r (seq % 256) k q v z e)
    ];
    releases = record {
      numbers = seq - r.next;
      moved = omega arith;
      handed = sym (collect-none (held r) r.next (seq - r.next) (λ k low high. held_empty r k v z));
      kept = λ k h. held_same r (jump seq r) k refl;
    };
    low = omega arith;
    high = omega arith;
    quiet = λ near. absurd (omega arith);
  }

  stay-Room :
      (seq : ℕ) (r : PacketReorder A)
      → IsOrderly r
      → IsWaiting r
      → r.next ≤ seq
      → seq < r.next + 256
      → Room r seq (r, [])
  stay-Room seq r v w low high = record {
    orderly = v;
    waiting = w;
    releases = stay-Releases r;
    low = low;
    high = high;
    quiet = λ near. refl;
  }

  make_room_near :
      (fuel seq : ℕ) (r : PacketReorder A)
      → ltb (seq - r.next) 256 ≡ true
      → make_room (suc fuel) seq r ≡ (r, [])
  unfolding make_room
  make_room_near fuel seq r near = rw near refl

  make_room_empty :
      (fuel seq : ℕ) (r : PacketReorder A)
      → ltb (seq - r.next) 256 ≡ false
      → (lowest r == 0) ≡ true
      → make_room (suc fuel) seq r ≡ (jump seq r, [])
  unfolding make_room jump
  make_room_empty fuel seq r far empty = rw (far, empty) refl

  abbrev next_rounds : ℕ → ℕ → PacketReorder A → PacketReorder A × List A
  next_rounds fuel seq r = make_room fuel seq (round r).0

  make_room-round :
      (fuel seq : ℕ) (r : PacketReorder A)
      → ltb (seq - r.next) 256 ≡ false
      → (lowest r == 0) ≡ false
      → make_room (suc fuel) seq r
        ≡ ((next_rounds fuel seq r).0, (round r).1 ++ (next_rounds fuel seq r).1)
  unfolding make_room
  make_room-round fuel seq r far there = rw (far, there) refl

  Round-Room :
      (seq : ℕ) (r r1 r2 : PacketReorder A) (out more : List A)
      → r.next + 256 ≤ seq
      → Round r (r1, out)
      → Room r1 seq (r2, more)
      → Room r seq (r2, out ++ more)
  Round-Room seq r r1 r2 out more far t m = record {
    orderly = m.orderly;
    waiting = m.waiting;
    releases = then-Hands (held r) r.next r1 r2 out more t.releases m.releases;
    low = m.low;
    high = m.high;
    quiet = λ close. absurd (omega arith);
  }

  -- With more rounds than packets the number gets into the window.
  pub make_room-Room :
      (fuel seq : ℕ) (r : PacketReorder A)
      → IsOrderly r
      → IsWaiting r
      → r.next ≤ seq
      → seq + 1 < 2 ^ 64
      → count r.slots < fuel
      → Room r seq (make_room fuel seq r)
  make_room-Room zero seq r v w low fit h = absurd (omega arith)
  make_room-Room (suc fuel) seq r v w low fit h = elim (Bool-cases (ltb (seq - r.next) 256)) [
    | inl near ↦ rw (make_room_near fuel seq r near) (stay-Room seq r v w low (ground arith))
    | inr far ↦
        let beyond : r.next + 256 ≤ seq = ground arith in
        elim (Bool-cases (lowest r == 0)) [
          | inl empty ↦
              rw (make_room_empty fuel seq r far empty)
                (jump-Room seq r v beyond fit (ground arith))
          | inr some_there ↦
              let t = round-Round r v (ground arith) in
              let close : (round r).0.next ≤ seq = le_trans t.reach beyond in
              let less : count (round r).0.slots < fuel = lt_of_lt_of_lt_suc t.fewer h in
              rw (make_room-round fuel seq r far some_there) (
                Round-Room seq r (round r).0 (next_rounds fuel seq r).0 (round r).1
                  (next_rounds fuel seq r).1 beyond t
                  (make_room-Room fuel seq (round r).0 t.orderly t.waiting close fit less))
        ]
  ]

-- ===== src/BondServer/Reorder.antt =====
-- The reorder buffer of internal/wgturn/bond.go, `packetReorder`: an array of slots, each for the numbers with one
-- remainder. Times are nanoseconds, 0 for none; the clock is an argument. A payload is any value.
pub mod Held
pub mod Drain
pub mod Lowest
pub mod Room
pub mod Window
pub mod Stored
pub mod Place
pub mod Push
pub mod Flush
pub mod Run
pub mod Account
mod Tests
use tamizdat.Prelude.{
  ℕ, Bool, List, Option, none, some, ◌∷◌, [], ◌++◌, length, get_or, set, ltb, leb, ◌==◌,
  if◌then◌else◌, ◌||◌, not, ◌&&◌, ◌%◌, ◌^◌, ◌+◌, ◌-◌, suc, zero, true, false,
}

abbrev pub bond_reorder_window : ℕ
bond_reorder_window = 256

-- 30 ms.
abbrev pub bond_reorder_hold : ℕ
bond_reorder_hold = 30000000

-- `packetReorder`; a slot holds a `reorderPacket`, its number and its payload, or nil.
pub record PacketReorder (A : Type 0) : Type 0 where
  pub next : ℕ
  pub hold : ℕ
  pub gap_since : ℕ
  pub slots : List (Option (ℕ × A))
  pub buffered : ℕ
  pub gaps : ℕ
  pub late : ℕ
  pub duplicate : ℕ

module _ {A : Type 0} where
  unfoldable pub empty_slots : ℕ → List (Option (ℕ × A))
  empty_slots zero = []
  empty_slots (suc n) = none ∷ empty_slots n

  -- `newPacketReorder`.
  unfoldable pub new_packet_reorder : ℕ → PacketReorder A
  unfolding empty_slots
  new_packet_reorder hold = record {
    next = 1;
    hold = hold;
    gap_since = 0;
    slots = empty_slots bond_reorder_window;
    buffered = 0;
    gaps = 0;
    late = 0;
    duplicate = 0;
  }

  -- `advanceTo`.
  unfoldable pub advance_to : ℕ → PacketReorder A → PacketReorder A
  advance_to seq r =
      if ltb r.next seq then record r { gaps = r.gaps + (seq - r.next); next = seq } else r

  -- The loop of `lowest`, with the lowest number so far, 0 for none.
  unfoldable pub lowest_of : ℕ → List (Option (ℕ × A)) → ℕ
  lowest_of low [] = low
  lowest_of low (none ∷ more) = lowest_of low more
  lowest_of low (some (seq, p) ∷ more) =
      lowest_of (if low == 0 || ltb seq low then seq else low) more

  -- `lowest`: 0 for none.
  unfoldable pub lowest : PacketReorder A → ℕ
  unfolding lowest_of
  lowest r = lowest_of 0 r.slots

  -- `drain`, with the rounds left: each takes a packet out of a slot, so one more than slots is enough.
  unfoldable pub drain : ℕ → PacketReorder A → PacketReorder A × List A
  drain zero r = (r, [])
  drain (suc fuel) r =
      let idx = r.next % bond_reorder_window in
      elim (get_or r.slots idx none) [
        | none ↦ (r, [])
        | some (seq, p) ↦
            let (r', out) = drain fuel (record r {
              slots = set r.slots idx none;
              buffered = r.buffered - 1;
              next = (r.next + 1) % 2 ^ 64;
            }) in
            if seq == r.next then (r', p ∷ out) else (r, [])
      ]

  unfoldable pub drain_all : PacketReorder A → PacketReorder A × List A
  unfolding drain
  drain_all r = drain (suc bond_reorder_window) r

  -- The loop of `push` that makes room for a number; each round takes out the lowest packet at least.
  unfoldable pub make_room : ℕ → ℕ → PacketReorder A → PacketReorder A × List A
  unfolding lowest advance_to drain_all
  make_room zero seq r = (r, [])
  make_room (suc fuel) seq r =
      let (r1, out) = drain_all (advance_to (lowest r) r) in
      let (r2, more) = make_room fuel seq r1 in
      if ltb (seq - r.next) bond_reorder_window
      then (r, [])
      else if lowest r == 0
      then (record r { gaps = r.gaps + (seq - r.next); next = seq }, [])
      else (r2, out ++ more)

  -- The time of the gap at the end of `push`.
  unfoldable pub mark_gap : ℕ → PacketReorder A → PacketReorder A
  mark_gap now r = record r {
    gap_since = if r.buffered == 0 then 0 else if r.gap_since == 0 then now else r.gap_since;
  }

  -- `push` behind the check of the slot: `buffered` as it is there.
  unfoldable pub store : ℕ → ℕ → ℕ → A → PacketReorder A → PacketReorder A × List A
  unfolding drain_all mark_gap
  store now buffered seq p r =
      let (r', out) = drain_all (record r {
        slots = set r.slots (seq % bond_reorder_window) (some (seq, p));
        buffered = buffered + 1;
      }) in
      (mark_gap now r', out)

  -- `push` behind the loop, with what the loop has given.
  unfoldable pub place : ℕ → ℕ → A → PacketReorder A × List A → PacketReorder A × List A
  unfolding store
  place now seq p (r, out) = elim (get_or r.slots (seq % bond_reorder_window) none) [
    | none ↦ let (r', more) = store now r.buffered seq p r in (r', out ++ more)
    | some (old, q) ↦
        let (r', more) = store now (r.buffered - 1) seq p r in
        if old == seq then (record r { duplicate = r.duplicate + 1 }, []) else (r', out ++ more)
  ]

  -- `push`.
  unfoldable pub push : ℕ → ℕ → A → PacketReorder A → PacketReorder A × List A
  unfolding make_room place
  push now seq p r =
      if seq == 0 || ltb seq r.next
      then (record r { late = r.late + 1 }, [])
      else place now seq p (make_room (suc bond_reorder_window) seq r)

  -- `flushExpired`.
  unfoldable pub flush_expired : ℕ → PacketReorder A → PacketReorder A × List A
  unfolding lowest advance_to drain_all
  flush_expired now r =
      let (r', out) = drain_all (advance_to (lowest r) r) in
      if r.buffered == 0 || r.gap_since == 0 || ltb (now - r.gap_since) r.hold
      then (r, [])
      else if lowest r == 0
      then (r, [])
      else (record r' { gap_since = if r'.buffered == 0 then 0 else now }, out)

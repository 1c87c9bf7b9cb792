-- ===== src/BondServer/Reorder/Flush.antt =====
-- `flush_expired`: behind the hold a gap is given up.
use tamizdat.BondServer.Reorder.{PacketReorder, lowest, flush_expired}
use tamizdat.BondServer.Reorder.Held.{count, IsOrderly, IsWaiting, Releases, held_same}
use tamizdat.BondServer.Reorder.Drain.{stay-Releases}
use tamizdat.BondServer.Reorder.Lowest.{lowest-eq-zero}
use tamizdat.BondServer.Reorder.Room.{round, Round, round-Round}
use tamizdat.Prelude.{
  ℕ, List, Option, none, some, ◌∷◌, [], get_or, ltb, arith, ◌≡◌, Bool-cases, inl, inr, ◌≤◌, Bool,
  ◌<◌, true, false, if◌then◌else◌, ◌-◌, ◌==◌, suc, ◌≢◌, ◌∙◌, ◌||◌, refl,
}

module _ {A : Type 0} where
  -- A gap is there, and its hold is over.
  pub record IsDue (now : ℕ) (r : PacketReorder A) : Type 0 where
    pub some_held : 1 ≤ r.buffered
    pub since : 1 ≤ r.gap_since
    pub over : r.hold ≤ now - r.gap_since

  abbrev early : ℕ → PacketReorder A → Bool
  early now r = r.buffered == 0 || r.gap_since == 0 || ltb (now - r.gap_since) r.hold

  -- The packets in front of the next gap are handed on, in order; one at least where the gap is due, and none before.
  pub record Flushed (now : ℕ) (r : PacketReorder A) (result : PacketReorder A × List A)
      : Type 0 where
    pub orderly : IsOrderly result.0
    pub waiting : IsWaiting result.0
    pub releases : Releases r result
    pub due : IsDue now r → result.0.buffered < r.buffered
    pub not_due : ¬ IsDue now r → result ≡ (r, [])

  with_gap : ℕ → PacketReorder A → PacketReorder A
  with_gap since r = record r { gap_since = since }

  -- A slot that is filled shows in the count.
  count-found :
      (xs : List (Option (ℕ × A)))
      → 1 ≤ count xs
      → (i : ℕ) × (seq : ℕ) × (p : A) × (get_or xs i none ≡ some (seq, p))
  unfolding count
  count-found [] h = absurd (omega arith)
  count-found (none ∷ xs) h = let (i, seq, p, e) = count-found xs h in (suc i, seq, p, e)
  count-found (some (seq, p) ∷ xs) h = (0, seq, p, refl)

  lowest_there : (r : PacketReorder A) → IsOrderly r → 1 ≤ r.buffered → lowest r ≢ 0
  lowest_there r v h z =
      let (i, seq, p, e) = count-found r.slots (omega (arith, v.counted)) in
      lowest-eq-zero r i seq p v z e

  stay-Flushed :
      (now : ℕ) (r : PacketReorder A)
      → IsOrderly r
      → IsWaiting r
      → early now r ≡ true
      → Flushed now r (r, [])
  stay-Flushed now r v w e = record {
    orderly = v;
    waiting = w;
    releases = stay-Releases r;
    due = λ d. absurd (ground (arith, d.some_held, d.since, d.over));
    not_due = λ d. refl;
  }

  Round-Flushed :
      (now since : ℕ) (r r1 : PacketReorder A) (out : List A)
      → IsOrderly r
      → early now r ≡ false
      → Round r (r1, out)
      → Flushed now r (with_gap since r1, out)
  unfolding with_gap
  Round-Flushed now since r r1 out v e t = record {
    orderly = record {
      size = t.orderly.size;
      started = t.orderly.started;
      fits = t.orderly.fits;
      filled = t.orderly.filled;
      counted = t.orderly.counted;
    };
    waiting = t.waiting;
    releases = record {
      numbers = t.releases.numbers;
      moved = t.releases.moved;
      handed = t.releases.handed;
      kept = λ k above. held_same r1 (with_gap since r1) k refl ∙ t.releases.kept k above;
    };
    due = λ d. omega (arith, t.fewer, t.orderly.counted, v.counted);
    not_due = λ d.
        absurd (d (record { some_held = ground arith; since = ground arith; over = ground arith }));
  }

  flush_early : (now : ℕ) (r : PacketReorder A) → early now r ≡ true → flush_expired now r ≡ (r, [])
  unfolding flush_expired
  flush_early now r e = rw e refl

  flush_late :
      (now : ℕ) (r : PacketReorder A)
      → early now r ≡ false
      → (lowest r == 0) ≡ false
      → flush_expired now r
        ≡ (with_gap (if (round r).0.buffered == 0 then 0 else now) (round r).0, (round r).1)
  unfolding flush_expired with_gap
  flush_late now r e there = rw (e, there) refl

  -- On an orderly buffer that waits for its expected number, `flush_expired` keeps it orderly and waiting and hands on
  -- all packets held below the new expected number, in order; the others stay. One at least leaves the buffer where a
  -- gap is there and its hold is over; else nothing changes.
  pub flush_expired-Flushed :
      (now : ℕ) (r : PacketReorder A)
      → IsOrderly r
      → IsWaiting r
      → Flushed now r (flush_expired now r)
  flush_expired-Flushed now r v w = elim (Bool-cases (early now r)) [
    | inl e ↦ rw (flush_early now r e) (stay-Flushed now r v w e)
    | inr e ↦
        let there = lowest_there r v (ground arith) in
        let t = round-Round r v there in
        rw (flush_late now r e (ground arith)) (
          Round-Flushed now (if (round r).0.buffered == 0 then 0 else now) r (round r).0 (round r).1
            v e t)
  ]

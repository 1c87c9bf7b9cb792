-- ===== src/BondServer/Lanes/Numbers.antt =====
-- The numbers of each lane have no gap, whatever the other lane sends.
use tamizdat.BondServer.Rooms.{bond_small_packet_max}
use tamizdat.BondServer.Lanes.{Lanes, next_outbound_frame_meta}
use tamizdat.Prelude.{
  ℕ, List, ◌∷◌, [], length, leb, ◌==◌, if◌then◌else◌, ◌%◌, ◌^◌, ◌+◌, suc, zero, arith, ◌≡◌, refl,
  ◌<◌, Bool-cases, inl, inr, ap,
}

-- The flags and numbers of a run of packets.
unfoldable pub number_all : List ℕ → Lanes → List (ℕ × ℕ)
number_all [] l = []
number_all (n ∷ ns) l = let (l', meta) = next_outbound_frame_meta n l in meta ∷ number_all ns l'

-- The numbers under one flag word.
unfoldable pub of_lane : ℕ → List (ℕ × ℕ) → List ℕ
of_lane flags [] = []
of_lane flags ((f, n) ∷ more) =
    let rest = of_lane flags more in if f == flags then n ∷ rest else rest

-- `count` numbers behind a number.
unfoldable pub numbers_after : ℕ → ℕ → List ℕ
numbers_after n zero = []
numbers_after n (suc count) = suc n ∷ numbers_after (suc n) count

unfoldable pub small : List ℕ → ℕ
small [] = 0
small (n ∷ ns) = let rest = small ns in if leb n bond_small_packet_max then suc rest else rest

unfoldable pub large : List ℕ → ℕ
large [] = 0
large (n ∷ ns) = let rest = large ns in if leb n bond_small_packet_max then rest else suc rest

-- Where the numbers of the packets stay below the top of their type, those of the small packets are the ones behind
-- the latency lane's last, each once and in order, and those of the large packets the ones behind the bulk lane's.
pub number_all-dense :
    (ns : List ℕ) (l : Lanes)
    → l.out_latency_sequence + length ns < 2 ^ 64
    → l.out_bulk_sequence + length ns < 2 ^ 64
    → (of_lane 1 (number_all ns l) ≡ numbers_after l.out_latency_sequence (small ns))
      × (of_lane 0 (number_all ns l) ≡ numbers_after l.out_bulk_sequence (large ns))
unfolding number_all of_lane numbers_after small large next_outbound_frame_meta
number_all-dense [] l h k = (refl, refl)
number_all-dense (n ∷ ns) l h k = elim (Bool-cases (leb n 384)) [
  | inl is_small ↦
      let at : (l.out_latency_sequence + 1) % 2 ^ 64 ≡ suc l.out_latency_sequence = omega arith in
      let rest =
        number_all-dense ns (record l { out_latency_sequence = suc l.out_latency_sequence })
          (omega arith) (omega arith) in
      rw (is_small, at) (ap (λ (t : List ℕ). suc l.out_latency_sequence ∷ t) rest.0, rest.1)
  | inr is_large ↦
      let at : (l.out_bulk_sequence + 1) % 2 ^ 64 ≡ suc l.out_bulk_sequence = omega arith in
      let rest =
        number_all-dense ns (record l { out_bulk_sequence = suc l.out_bulk_sequence }) (omega arith)
          (omega arith) in
      rw (is_large, at) (rest.0, ap (λ (t : List ℕ). suc l.out_bulk_sequence ∷ t) rest.1)
]

-- ===== src/BondServer/Lanes/Tests.antt =====
-- The lanes of a bond on small runs.
use tamizdat.BondServer.Lanes.{Lanes, accept_data_frame, next_outbound_frame_meta}
use tamizdat.BondServer.Lanes.Numbers.{
  number_all, of_lane, numbers_after, small, large, number_all-dense,
}
use tamizdat.BondServer.Reorder.{new_packet_reorder, bond_reorder_hold, push}
use tamizdat.Prelude.{ℕ, List, some, ◌∷◌, [], ◌≡◌, refl, arith}

abbrev new_lanes : Lanes
new_lanes = record {
  bulk_reorder = new_packet_reorder bond_reorder_hold;
  latency_reorder = new_packet_reorder bond_reorder_hold;
  wg_write = [];
  wg_write_drop = 0;
  out_bulk_sequence = 0;
  out_latency_sequence = 0;
}

-- A large packet, two small ones and a large one.
abbrev lengths : List ℕ
lengths = 1400 ∷ 60 ∷ 384 ∷ 385 ∷ []

numbered : number_all lengths new_lanes ≡ (0, 1) ∷ (1, 1) ∷ (1, 2) ∷ (0, 2) ∷ []
unfolding number_all next_outbound_frame_meta
numbered = refl

-- A frame of the latency lane passes the bulk lane.
passed :
    (accept_data_frame 5 (record { typ = 5; flags = 1; seq = 1; payload = 7 ∷ [] }) new_lanes).1
    ≡ some ((7 ∷ []) ∷ [])
unfolding accept_data_frame push new_packet_reorder
passed = refl

number_all-dense_example :
    (of_lane 1 (number_all lengths new_lanes) ≡ numbers_after 0 (small lengths))
    × (of_lane 0 (number_all lengths new_lanes) ≡ numbers_after 0 (large lengths))
number_all-dense_example = number_all-dense lengths new_lanes (omega arith) (omega arith)

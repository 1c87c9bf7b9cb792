-- ===== src/BondServer/Lanes.antt =====
-- The two lanes of a bond, for small packets and for large ones: internal/wgturn/bond.go, `bondLatencyLane`,
-- `acceptDataFrame`, `enqueueWG` and `nextOutboundFrameMeta`.
pub mod Numbers
pub mod Queue
mod Tests
use tamizdat.BondServer.Rooms.{bond_small_packet_max}
use tamizdat.BondServer.Reorder.{PacketReorder, push}
use tamizdat.Bond.Frame.{BondFrame, bond_flag_latency}
use Prim.Native.Nat.{bit_and}
use tamizdat.Prelude.Bytes.{Bytes}
use tamizdat.Prelude.{
  ℕ, Bool, List, Option, none, some, ◌∷◌, [], ◌++◌, length, leb, ltb, ◌==◌, if◌then◌else◌, ◌||◌,
  ◌%◌, ◌^◌, ◌+◌, true, false, not, ◌-◌,
}

abbrev pub bond_wg_queue : ℕ
bond_wg_queue = 512

-- The fields of `serverBond` for the packets of both ways.
pub record Lanes : Type 0 where
  pub bulk_reorder : PacketReorder Bytes
  pub latency_reorder : PacketReorder Bytes
  pub wg_write : List Bytes
  pub wg_write_drop : ℕ
  pub out_bulk_sequence : ℕ
  pub out_latency_sequence : ℕ

-- `bondLatencyLane`: `flags & ^bondFlagLatency` on 16 bits; `none` is a flag word that is not valid.
unfoldable pub bond_latency_lane : ℕ → Option Bool
bond_latency_lane flags =
    if not (bit_and flags (0xffff - bond_flag_latency) == 0)
    then none
    else some (not (bit_and flags bond_flag_latency == 0))

-- `acceptDataFrame` behind its checks.
unfoldable pub push_lane : Bool → ℕ → BondFrame → Lanes → Lanes × List Bytes
push_lane true now f l =
    let (r, ready) = push now f.seq f.payload l.latency_reorder in
    (record l { latency_reorder = r }, ready)
push_lane false now f l =
    let (r, ready) = push now f.seq f.payload l.bulk_reorder in
    (record l { bulk_reorder = r }, ready)

-- `acceptDataFrame`: no list for a frame that is not valid. The metrics of the room are not read.
unfoldable pub accept_data_frame : ℕ → BondFrame → Lanes → Lanes × Option (List Bytes)
unfolding push_lane bond_latency_lane
accept_data_frame now f l = elim (bond_latency_lane f.flags) [
  | none ↦ (l, none)
  | some latency ↦
      let (l', ready) = push_lane latency now f l in
      if f.seq == 0 || length f.payload == 0 then (l, none) else (l', some ready)
]

-- `enqueueWG` while the bond lasts.
unfoldable pub enqueue_wg : List Bytes → Lanes → Lanes
enqueue_wg [] l = l
enqueue_wg (p ∷ ps) l = enqueue_wg ps (
    if ltb (length l.wg_write) bond_wg_queue
    then record l { wg_write = l.wg_write ++ p ∷ [] }
    else record l { wg_write_drop = l.wg_write_drop + 1 })

-- `nextOutboundFrameMeta`: the flags and the number.
unfoldable pub next_outbound_frame_meta : ℕ → Lanes → Lanes × (ℕ × ℕ)
next_outbound_frame_meta payload_len l =
    if leb payload_len bond_small_packet_max
    then (
      record l { out_latency_sequence = (l.out_latency_sequence + 1) % 2 ^ 64 },
      (bond_flag_latency, (l.out_latency_sequence + 1) % 2 ^ 64),
    )
    else (
      record l { out_bulk_sequence = (l.out_bulk_sequence + 1) % 2 ^ 64 },
      (0, (l.out_bulk_sequence + 1) % 2 ^ 64),
    )

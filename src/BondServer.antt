-- ===== src/BondServer.antt =====
-- The server's side of the bonded transport: internal/wgturn/bond.go.
pub mod Frame
pub mod Reorder
pub mod Bind
pub mod Registry
pub mod Rooms
pub mod Lanes

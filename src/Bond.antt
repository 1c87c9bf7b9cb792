-- ===== src/Bond.antt =====
-- The bonded TURN client: internal/wgturnclient/bondv2.go.
pub mod Frame
pub mod Reorder

-- ===== src/Lib.antt =====
-- Verified models of the core of tamizdat, an encrypted proxy protocol with a routing node and with
-- transports that go over TURN relays and over fragmented polls. The files follow the program's parts:
--   * Bond models internal/wgturnclient/bondv2.go: the frames of the bonded transport (Bond/Frame:
--     encodeBondFrame, decodeBondFrame) and the buffer that puts the datagrams of several relays
--     back in order (Bond/Reorder: push, flushExpired, drainContiguous).
--   * BondServer models the server's side of it, internal/wgturn/bond.go: its reorder buffer (BondServer/Reorder: push,
--     flushExpired), its frames (BondServer/Frame), the binds that it takes (BondServer/Bind: parseBondBind), the
--     registry of its bonds (BondServer/Registry: acquireBond, retireDeviceBonds, finishBondClaim, removeBond), the
--     workers of a bond (BondServer/Rooms: addWorker, removeWorker, schedule) and its lanes (BondServer/Lanes:
--     acceptDataFrame, enqueueWG, nextOutboundFrameMeta).
--   * Replay models pkg/tamizdat/replay_guard.go, which the server asks about each SessionID: Seen,
--     Insert, checkKey, the sweep of the window and the eviction over the cap.
--   * SessionIds models pkg/tamizdat/sessionid_cache.go, which makes those SessionIDs' nonces in the
--     client: Acquire, PeekStableRandom, Forget.
--   * Masquerade models pkg/tamizdat/masquerade_ratelimit.go, the limit on connections that fail
--     the handshake and are forwarded to the cover site: decide, allow, reapExpiredBuckets.
--   * Sniff models internal/sniff/tls.go, which finds the host of a connection for the routing.
--   * Routing models node/rules.go (Match and its matchers) and node/dispatcher.go (ResolveRule,
--     Resolve), which route a request to an outbound.
--   * DownSched models internal/transport/fragpoc/scheduler.go, which shares the workers of the
--     polling transport among its streams: addConn, removeConn, pick, finish.
--   * DownPath models the way down of that transport, from fragpoc/server.go (downProducer, pushReplay, findReplay,
--     nextDownResponse) to fragpoc/client.go (DownPath/Receiver: down, Read), with the network between as the steps of
--     DownPath/Network.
--   * Mux models the stream multiplexer of internal/transport/vkturn: its frames (encodeFrame, decodeFrame,
--     readRawFrame), the session with its streams (Mux/Session: newClientStream, handleFrame, Close,
--     closeWithError), the loop that reads frames (Mux/Loop: readLoop; Mux/Ends, with Mux/Closing and
--     Mux/Waiting: how it ends), Read (Mux/Reading) and Write.
--   * Pool models pkg/tamizdat/connpool.go, the client's transports, with the stream slots of h2transport.go:
--     getTransport, topUp, resize, cleanup, close as sections under the mutex.
--   * Handshakes models pkg/tamizdat/handshake_limiter.go, the limit on the client's handshakes: reserveOrDelay.
--   * Balancer models internal/outbounds/balancer.go, which tries the members of an outbound in an order of
--     health: orderedMembers, noteHighRTTIfUnhealthy, DialContext.
--   * ProxyHeader models internal/proxyproto/proxyproto.go, the headers of an upstream proxy: ReadHeader.
-- Prelude holds what they share: Boolean tests, lists, results, options, bytes, texts, association lists.
-- A stream of the multiplexer is an object of a store, since its users hold it after it has left the table; a
-- transport of the pool is a value, and what others do to it is a step of its own.
-- Each operation is a function from the state to the new state and its result; the clock, the entropy and
-- the answers of packages outside the repository are arguments. A mutex makes each operation one step, so
-- interleavings are lists of steps. A map is an association list, a map with a heap keeps both.
-- Times are nanoseconds. Machine integers that can wrap are reduced (`% 2 ^ w`); the others stay in their
-- width by the bounds of the source.
-- Fuel: the drain of the reorder buffer takes an entry in each round and has one round more than entries, and
-- those of the server's buffer take a packet in each round and have one round more than slots; the
-- loops of the sniffer move on by 3 or 4 bytes in each round and have one round more than bytes; a scan of
-- the scheduler visits as many streams as the slice has; a Write and the read loop of a session have one round more
-- than bytes; an eviction of the handshake limiter takes a key in each round and has one round more than keys.
-- The heap of the replay guard is the list of its entries in order, which container/heap keeps as an array.
-- Not modelled: sockets, TLS, cryptography, SQL, JSON, devices, the commands, the panel; of the routing, how
-- rules are compiled from the configuration; of the bond server, the loop that reads the binds of a connection.
pub mod Prelude
pub mod Bond
pub mod Replay
pub mod Sniff
pub mod Masquerade
pub mod SessionIds
pub mod Routing
pub mod DownSched
pub mod Mux
pub mod Pool
pub mod Handshakes
pub mod Balancer
pub mod ProxyHeader
pub mod DownPath
pub mod BondServer

-- ===== src/Lib.antt =====
-- campello_net: a C++ networking library for games. A game talks to `NetworkManager`, which sends
-- messages over a transport; `NetworkEntityManager` keeps the networked entities, the prediction
-- classes keep inputs and past states, and `UdpTransport` carries everything over datagrams with four
-- kinds of reliability.
--
-- What is modelled, and where:
--
-- Packet: `include/campello_net/transport/packet.hpp` and `src/transport/packet.cpp`, the 16-byte
-- header of every datagram. Bytes: big-endian fields, as `src/network_entity.cpp` reads and writes
-- them.
--
-- Udp: `src/transport/udp_transport.cpp`, the class `UdpTransport` with its `Impl`. Udp.State has the
-- structs, one record for each; Udp.Acks `process_acks`; Udp.Bandwidth the byte counters; Udp.Send
-- `send_raw` and `send_to_connection`; Udp.Resend `resend_pending`; Udp.Receive the fragments and
-- `process_payload`; Udp.Process `process_packet`; Udp.Transport the public operations; Udp.Stats
-- the getters. The socket, the
-- clock, the addresses and the arithmetic of `double` and `float` are the fields of the record
-- `Udp.State.Env`, which every definition takes as an instance; the datagrams handed to the socket are
-- listed in the member `sent`. A C++ reference into the table of connections is the connection itself,
-- written back where the function ends. `none` as the result of `process_payload` and of what calls it
-- is undefined behaviour of the C++ code: an index outside a vector or a shift that is too long. The
-- loop of `poll` runs over the list of the datagrams that `recvfrom` returns before it would block, so
-- that it ends with them.
--
-- Entities: `src/network_entity.cpp`, the class `NetworkEntityManager`. The hash map is an association
-- list; the game's bridge is the record `Bridge`, whose answers depend on the calls before; an
-- operation returns the messages that it broadcasts. Entities.Messages has the dispatch of these
-- messages from `src/network_manager.cpp`.
--
-- InputBuffer: `src/prediction/input_buffer.cpp`, the rings of 256 inputs.
--
-- Snapshots: `SnapshotHistory` of `src/network_replication.cpp`, and `LagCompensator` of
-- `src/prediction/lag_compensator.cpp` on top of it. A span is its offset and size in the slot's blob.
--
-- RateLimiter: `src/rate_limiter.cpp`, with the arithmetic of floats in the record `Floats`.
--
-- Loopback: `src/transport/loopback_transport.cpp`. A `World` is the hub and the objects that it points
-- to; an operation of a transport takes its number and the object, and the result of `should_drop`. The
-- search for a free port has the number of ports as its fuel, and `none` is its endless loop.
--
-- Simulator: `src/transport/network_simulator.cpp`. The transport inside and the random generator are
-- the records `Inner` and `Random`; the loop that empties the transport inside runs on fuel, and fuel
-- above the number of its packets is enough.
--
-- Network: `src/network_manager.cpp`, the class `NetworkManager` with its `Impl`. Network.Clients has the
-- table of clients, Network.Sending what is sent and called, Network.Messages one function per system
-- message, Network.Receiving the packets of a transport, Network.Session, Network.Traffic,
-- Network.Polling and Network.Lifecycle the public operations. A transport is its number; the calls of
-- the transports, the callbacks and the entity, replication and RPC managers are listed in the member
-- `calls`, and a callback does not call back into the manager. What a transport answers, and the clock,
-- are arguments. The search for a free client number has one more than the number of clients as its
-- fuel, which is enough. Entities.Messages has the dispatch of the messages of entities on its own.
--
-- ConnectionToken: `src/connection_token.cpp`, over Crypto.Sha256, the digest and the HMAC of
-- `src/crypto/hmac_sha256.cpp`. Crypto.ChaCha, Crypto.Poly1305 and Crypto.Aead are the cipher, the
-- authenticator and their composition in `src/crypto/chachapoly.cpp`; a buffer that the code writes in
-- place is a list of its bytes, and the loops over bytes have the number of bytes as their fuel, since
-- each pass takes at least one.
--
-- BitStream: `include/campello_net/serialization/bit_stream.hpp`, the class `BitStream` on a little-endian
-- host: bits, unsigned integers, alignment, and the varints, whose ten passes are enough for 64 bits.
--
-- Replication: `NetworkReplicationManager` of `src/network_replication.cpp`: the acknowledgements on the
-- server, the entities that a client is sent, full or as a delta
-- (Replication.Selection), their message (`send_snapshot_to_client`), and the client's `on_receive_delta`.
-- What it calls is listed in the member `deliveries`; the client's clock is left out.
--
-- Numbers are natural numbers; a cast to an unsigned width is written as a remainder (`u8`, `u16`,
-- `u32`, `u64`), and the signed 16-bit comparisons of ticks are written out. Prelude has the shared
-- types, lists, maps and bit operations with their laws; Tests has runs and the theorems at concrete
-- inputs.
--
-- Not modelled: the encrypted and browser transports; of `NetworkReplicationManager` the ticks, the
-- serialization of the entities of a snapshot, and interpolation; remote calls; signed integers,
-- floating point, strings and arrays of `BitStream`; the spatial interest manager, the network clock,
-- and everything that only calls the system.
pub mod Prelude
pub mod Bytes
pub mod Crypto
pub mod ConnectionToken
pub mod Packet
pub mod Udp
pub mod Entities
pub mod InputBuffer
mod Tests
pub mod Snapshots
pub mod RateLimiter
pub mod Loopback
pub mod Simulator
pub mod BitStream
pub mod Network
pub mod Replication

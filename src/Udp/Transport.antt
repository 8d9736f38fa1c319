-- ===== src/Udp/Transport.antt =====
-- The public operations of `UdpTransport`. What the system answers (`socket`, `bind`, `recvfrom`) is
-- an argument of the operation; each datagram comes with the reading of the clock at its arrival.
pub mod InOrder
pub mod Stale
use campello_net.Prelude.{
  ℕ, ◌+◌, Bool, true, false, not, ◌&&◌, ◌||◌, Option, none, some, List, [], ◌∷◌, ◌++◌, ltb, leb,
  if◌then◌else◌, u64, length, get_elem?, take, drop,
}
use mathlib.Core.Option
use campello_net.Packet.{PacketHeader, PacketReliability, deserialize, header_size, max_packet_size}
use campello_net.Udp.State.{
  Env, Channel, Connection, Phase, connecting, connected, disconnecting, Impl, Mode, none_mode,
  server, client, channel_of, with_channel, fresh_connection,
}
use campello_net.Udp.Send.{send_handshake, send_disconnect, send_keepalive, send_to_connection}
use campello_net.Udp.Resend.{resend_pending}
use campello_net.Udp.Receive.{cleanup_fragments}
use campello_net.Udp.Process.{find_connection, write_connection, store, process_packet}

abbrev pub is_connected_phase : Phase → Bool
is_connected_phase connecting = false
is_connected_phase connected = true
is_connected_phase disconnecting = false

abbrev is_disconnecting : Phase → Bool
is_disconnecting connecting = false
is_disconnecting connected = false
is_disconnecting disconnecting = true

module _ ⦃env : Env⦄ where
  -- A datagram as `recvfrom` fills the buffer: at most `MAX_PACKET_SIZE` bytes.
  abbrev pub Arrival : Type 0
  Arrival = env.Double × env.Address × List ℕ

  abbrev pub count_received : Impl → Impl
  count_received impl = record impl { packets_received = u64 (impl.packets_received + 1) }

  -- One round of the receive loop of `poll`.
  unfoldable pub receive_one : Impl → Arrival → Option Impl
  receive_one impl (now, from, datagram) =
      let buffer = take max_packet_size datagram in
      if ltb (length buffer) header_size then some impl else elim (deserialize buffer header_size) [
        | none ↦ some impl
        | some hdr ↦
            Option.map count_received (process_packet now impl from hdr (drop header_size buffer))
      ]

  unfoldable pub receive_loop : List Arrival → Impl → Option Impl
  receive_loop [] impl = some impl
  receive_loop (a ∷ arrivals) impl = elim (receive_one impl a) [
    | none ↦ none
    | some impl' ↦ receive_loop arrivals impl'
  ]

  -- What `poll` does with one connection: resending, and the keep-alive.
  pub service_one : env.Double → Impl → Connection → Impl × Connection
  service_one t impl conn =
      let (impl', conn') = resend_pending t impl conn in
      if not (is_connected_phase conn.phase)
      then (impl, conn)
      else if env.double_lt (env.double 1 10) (env.double_sub t conn'.last_send_time)
      then (send_keepalive impl' conn', record conn' { last_send_time = t })
      else (impl', conn')

  pub service : env.Double → Impl → List Connection → Impl × List Connection
  service t impl [] = (impl, [])
  service t impl (c ∷ cs) =
      let (impl', c') = service_one t impl c in
      let (impl₁, cs') = service t impl' cs in (impl₁, c' ∷ cs')

  unfoldable pub cleanup_connections : env.Double → List Connection → List Connection
  cleanup_connections t [] = []
  cleanup_connections t (c ∷ cs) =
      if is_disconnecting c.phase
        || env.double_lt (env.double 5 1) (env.double_sub t c.last_recv_time)
      then cleanup_connections t cs
      else c ∷ cleanup_connections t cs

  -- The rest of `poll`, at the time `t` read at its start.
  unfoldable pub poll : env.Double → List Arrival → Impl → Option Impl
  poll t arrivals impl =
      if not impl.socket_open
      then some impl
      else Option.map (after_receive t) (receive_loop arrivals impl)
    where
      after_receive : env.Double → Impl → Impl
      after_receive t impl =
          let (impl', conns) = service t impl impl.connections in
          record impl' {
            fragment_assemblies = cleanup_fragments t impl'.fragment_assemblies;
            connections = cleanup_connections t conns;
          }

  -- The loop of `disconnect` over the connections.
  pub notify_all : Impl → List Connection → Impl
  notify_all impl [] = impl
  notify_all impl (c ∷ cs) =
      notify_all (if is_connected_phase c.phase then send_disconnect impl c.address else impl) cs

  unfoldable pub disconnect : Impl → Impl
  disconnect impl = record (notify_all impl impl.connections) {
    socket_open = false;
    connections = [];
    receive_queue = [];
    receive_read_idx = 0;
    fragment_assemblies = [];
    mode = none_mode;
    packets_sent = 0;
    packets_received = 0;
    packets_acked = 0;
  }

  -- `created` and `bound`: do `socket` and `bind` of the system succeed?
  unfoldable pub bind : (created bound : Bool) → env.Address → Impl → Impl × Bool
  bind created bound address impl =
      if not created
      then (disconnect impl, false)
      else if not bound
      then (disconnect impl, false)
      else (
        record (disconnect impl) { socket_open = true; mode = server; bound_address = address },
        true,
      )

  unfoldable pub connect : (created bound : Bool) → env.Double → env.Address → Impl → Impl × Bool
  connect created bound now address impl =
      if not created
      then (disconnect impl, false)
      else if not bound
      then (disconnect impl, false)
      else (
        send_handshake
            (record (disconnect impl) {
              socket_open = true;
              mode = client;
              server_address = address;
              connections = fresh_connection address now ∷ [];
            })
            address,
        true,
      )

  unfoldable pub is_connected : Impl → Bool
  is_connected impl = elim impl.mode [
    | client ↦ elim impl.connections [ [] ↦ false | c ∷ cs ↦ is_connected_phase c.phase ]
    | server ↦ impl.socket_open
    | none_mode ↦ false
  ]

  -- The loop of a server's `send` over all connections; `any` is the result so far.
  unfoldable pub send_all :
      env.Double
      → List ℕ
      → PacketReliability
      → Impl
      → List Connection
      → Bool
      → Impl × List Connection × Bool
  send_all now bytes r impl [] any = (impl, [], any)
  send_all now bytes r impl (c ∷ cs) any =
      let (impl', c', done) = send_to_connection now impl c bytes r 0 in
      let (impl₁, cs', any') = send_all now bytes r impl' cs (done || any) in
      (impl₁, c' ∷ cs', any')

  unfoldable pub send : env.Double → List ℕ → PacketReliability → Impl → Impl × Bool
  send now bytes r impl = elim impl.mode [
    | client ↦ elim impl.connections [
      | [] ↦ (impl, false)
      | c ∷ cs ↦
          let (impl', c', done) = send_to_connection now impl c bytes r 0 in
          (record impl' { connections = c' ∷ cs }, done)
    ]
    | server ↦
        let (impl', cs', any) = send_all now bytes r impl impl.connections false in
        (record impl' { connections = cs' }, any)
    | none_mode ↦ (impl, false)
  ]

  unfoldable pub send_with_priority :
      env.Double → env.Address → List ℕ → PacketReliability → ℕ → Impl → Impl × Bool
  send_with_priority now address bytes r priority impl =
      elim (find_connection address impl.connections) [
        | none ↦ (impl, false)
        | some c ↦
            let (impl', c', done) = send_to_connection now impl c bytes r priority in
            (store impl' c', done)
      ]

  unfoldable pub send_to :
      env.Double → env.Address → List ℕ → PacketReliability → Impl → Impl × Bool
  send_to now address bytes r impl = send_with_priority now address bytes r 0 impl

  -- The bytes that are copied, and their sender; `none` is the result `false`.
  unfoldable pub pop_receive : ℕ → Impl → Impl × Option (env.Address × List ℕ)
  pop_receive max_length impl = elim (get_elem? impl.receive_queue impl.receive_read_idx) [
    | none ↦ (record impl { receive_queue = []; receive_read_idx = 0 }, none)
    | some (sender, bytes) ↦ (
      record impl { receive_read_idx = impl.receive_read_idx + 1 },
      some (sender, take max_length bytes),
    )
  ]

  unfoldable pub set_connection_bandwidth_limit : env.Address → ℕ → Impl → Impl
  set_connection_bandwidth_limit address limit impl =
      elim (find_connection address impl.connections) [
        | none ↦ impl
        | some c ↦ store impl (record c { global_bandwidth_limit = limit })
      ]

  unfoldable pub set_channel_bandwidth_limit : env.Address → PacketReliability → ℕ → Impl → Impl
  set_channel_bandwidth_limit address r limit impl =
      elim (find_connection address impl.connections) [
        | none ↦ impl
        | some c ↦
            store impl (with_channel c r (record (channel_of c r) { bandwidth_limit = limit }))
      ]

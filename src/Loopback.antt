-- ===== src/Loopback.antt =====
-- `LoopbackHub` and `LoopbackTransport` of `src/transport/loopback_transport.cpp`: transports that
-- share a hub in one process.
-- An address is a number, as a key of the maps; a transport is the number of its object, `this`.
-- The mutex is held for a whole operation of the hub, so that an operation is one step. Each result
-- of `should_drop`, which asks a random number generator, is an argument.
pub mod Delivery
use campello_net.Prelude.{
  ℕ, zero, suc, ◌+◌, Bool, true, false, not, ◌&&◌, ◌||◌, Option, none, some, List, [], ◌∷◌, ◌++◌,
  if◌then◌else◌, ◌==◌, ◌!=◌, u16, take, lookup, insert, erase, is_some,
}
use campello_net.Packet.{PacketReliability}

-- The clock's arithmetic, and `Address("127.0.0.1", port)`. `after` adds a latency to a time, and
-- `is_positive` compares one with 0.
pub record Platform : Type 1 where
  pub Double : Type 0
  pub Single : Type 0
  pub zero_single : Single
  pub is_positive : Single → Bool
  pub after : Double → Single → Double
  pub double_le : Double → Double → Bool
  pub local_address : ℕ → ℕ

-- `LoopbackTransport::Impl::Packet`.
pub record Packet : Type 0 where
  pub sender : ℕ
  pub bytes : List ℕ
  pub reliability : PacketReliability

-- `LoopbackTransport::Impl::DelayedPacket`.
pub record DelayedPacket ⦃platform : Platform⦄ : Type 0 where
  pub delivery_time : platform.Double
  pub recipient : ℕ
  pub sender : ℕ
  pub bytes : List ℕ
  pub reliability : PacketReliability
  pub broadcast : Bool

-- `LoopbackTransport::Impl`; the address 0 is `Address{}`.
pub record Transport ⦃platform : Platform⦄ : Type 0 where
  pub bound : Bool
  pub connected : Bool
  pub local_addr : ℕ
  pub remote_addr : ℕ
  pub pending_recv : List Packet
  pub ready_recv : List Packet
  pub latency_sec : platform.Single
  pub delayed_outbound : List DelayedPacket

-- `LoopbackHub::Impl`.
pub record Hub : Type 0 where
  pub servers : List (ℕ × ℕ)
  pub clients : List (ℕ × ℕ)
  pub client_to_server : List (ℕ × ℕ)
  pub next_port : ℕ

-- The hub and the objects that it points to.
pub record World ⦃platform : Platform⦄ : Type 0 where
  pub hub : Hub
  pub transports : List (ℕ × Transport)

abbrev pub fresh_hub : Hub
fresh_hub = record { servers = []; clients = []; client_to_server = []; next_port = 50000 }

abbrev pub find_transport : ℕ → Hub → Option ℕ
find_transport addr hub = elim (lookup addr hub.clients) [
  | some t ↦ some t
  | none ↦ lookup addr hub.servers
]

abbrev pub bind_server : ℕ → ℕ → Hub → Hub
bind_server addr t hub = record hub { servers = insert addr t hub.servers }

-- The loop of `unbind_server` over the clients of the server.
unfoldable pub drop_clients : ℕ → List (ℕ × ℕ) → Hub → Hub
drop_clients addr [] hub = hub
drop_clients addr ((client, server) ∷ rest) hub = drop_clients addr rest (
    if server == addr
    then record hub {
      clients = erase client hub.clients;
      client_to_server = erase client hub.client_to_server;
    }
    else hub)

unfoldable pub unbind_server : ℕ → Hub → Hub
unbind_server addr hub =
    drop_clients addr hub.client_to_server (record hub { servers = erase addr hub.servers })

abbrev pub disconnect_client : ℕ → Hub → Hub
disconnect_client client_addr hub = record hub {
  clients = erase client_addr hub.clients;
  client_to_server = erase client_addr hub.client_to_server;
}

module _ ⦃platform : Platform⦄ where
  abbrev pub fresh_transport : Transport
  fresh_transport = record {
    bound = false;
    connected = false;
    local_addr = 0;
    remote_addr = 0;
    pending_recv = [];
    ready_recv = [];
    latency_sec = platform.zero_single;
    delayed_outbound = [];
  }

  abbrev pub write : ℕ → Transport → World → World
  write t tr w = record w { transports = insert t tr w.transports }

  -- The `do` loop of `connect_client`: a free address, and the port after it. The fuel is the number
  -- of ports; `none` is a loop that does not end, as every port is taken.
  unfoldable pub free_port : ℕ → ℕ → Hub → Option (ℕ × ℕ)
  free_port zero port hub = none
  free_port (suc fuel) port hub =
      let rest = free_port fuel (u16 (port + 1)) hub in
      if is_some (lookup (platform.local_address port) hub.clients)
      then rest
      else some (platform.local_address port, u16 (port + 1))

  -- `none` is the endless loop; the inner option is the result of `connect_client`.
  unfoldable pub connect_client : ℕ → ℕ → Hub → Option (Hub × Option ℕ)
  connect_client server_addr client hub =
      if is_some (lookup server_addr hub.servers)
      then elim (free_port 65536 hub.next_port hub) [
        | none ↦ none
        | some (addr, port) ↦ some (
          record hub {
            clients = insert addr client hub.clients;
            client_to_server = insert addr server_addr hub.client_to_server;
            next_port = port;
          },
          some addr,
        )
      ]
      else some (hub, none)

  -- `enqueue_pending` on the object `t`.
  unfoldable pub enqueue_pending : ℕ → Packet → World → World
  enqueue_pending t pkt w = elim (lookup t w.transports) [
    | none ↦ w
    | some tr ↦ write t (record tr { pending_recv = tr.pending_recv ++ (pkt ∷ []) }) w
  ]

  unfoldable pub deliver : ℕ → Packet → World → World
  deliver to pkt w = elim (find_transport to w.hub) [ none ↦ w | some t ↦ enqueue_pending t pkt w ]

  unfoldable pub broadcast_to : ℕ → Packet → List (ℕ × ℕ) → World → World
  broadcast_to server_addr pkt [] w = w
  broadcast_to server_addr pkt ((client, server) ∷ rest) w = broadcast_to server_addr pkt rest (
      if server != server_addr
      then w
      else elim (lookup client w.hub.clients) [ none ↦ w | some t ↦ enqueue_pending t pkt w ])

  unfoldable pub broadcast : ℕ → Packet → World → World
  broadcast server_addr pkt w = broadcast_to server_addr pkt w.hub.client_to_server w

  -- The operations of one transport, `tr` being the object `t` as the world holds it.
  unfoldable pub bind : ℕ → Transport → ℕ → World → World × Bool
  bind t tr address w = if tr.bound then (w, false) else (
    write t (record tr { local_addr = address; bound = true })
        (record w { hub = bind_server address t w.hub }),
    true,
  )

  unfoldable pub connect : ℕ → Transport → ℕ → World → Option (World × Bool)
  connect t tr address w =
      if tr.connected || tr.bound then some (w, false) else elim (connect_client address t w.hub) [
        | none ↦ none
        | some (hub, none) ↦ some (record w { hub = hub }, false)
        | some (hub, some addr) ↦ some (
          write t (record tr { local_addr = addr; remote_addr = address; connected = true })
              (record w { hub = hub }),
          true,
        )
      ]

  unfoldable pub disconnect : ℕ → Transport → World → World
  disconnect t tr w =
      let unbound = if tr.bound then unbind_server tr.local_addr w.hub else w.hub in
      let gone = if tr.connected then disconnect_client tr.local_addr unbound else unbound in
      write t
        (record tr {
          bound = false;
          connected = false;
          local_addr = 0;
          remote_addr = 0;
          pending_recv = [];
          ready_recv = [];
        })
        (record w { hub = gone })

  abbrev pub is_connected : Transport → Bool
  is_connected tr = tr.bound || tr.connected

  abbrev pub packet : Transport → List ℕ → PacketReliability → Packet
  packet tr bytes r = record { sender = tr.local_addr; bytes = bytes; reliability = r }

  -- A packet that waits for its time.
  abbrev pub delay :
      platform.Double → ℕ → Transport → ℕ → Bool → List ℕ → PacketReliability → World → World
  delay now t tr recipient to_all bytes r w =
      write t
        (record tr {
          delayed_outbound =
              tr.delayed_outbound
              ++ (record {
                delivery_time = platform.after now tr.latency_sec;
                recipient = recipient;
                sender = tr.local_addr;
                bytes = bytes;
                reliability = r;
                broadcast = to_all;
              }
                  ∷ []);
        })
        w

  unfoldable pub send :
      (drop : Bool)
      → platform.Double
      → ℕ
      → Transport
      → List ℕ
      → PacketReliability
      → World
      → World × Bool
  send drop now t tr bytes r w =
      if drop
      then (w, true)
      else if platform.is_positive tr.latency_sec
      then (
        delay now t tr (if tr.bound then tr.local_addr else tr.remote_addr) tr.bound bytes r w,
        true,
      )
      else if tr.bound
      then (broadcast tr.local_addr (packet tr bytes r) w, true)
      else if tr.connected
      then (deliver tr.remote_addr (packet tr bytes r) w, true)
      else (w, false)

  unfoldable pub send_to :
      (drop : Bool)
      → platform.Double
      → ℕ
      → Transport
      → ℕ
      → List ℕ
      → PacketReliability
      → World
      → World × Bool
  send_to drop now t tr address bytes r w =
      if not tr.bound
      then (w, false)
      else if drop
      then (w, true)
      else if platform.is_positive tr.latency_sec
      then (delay now t tr address false bytes r w, true)
      else (deliver address (packet tr bytes r) w, true)

  -- What is pending becomes ready.
  abbrev pub make_ready : Transport → Transport
  make_ready tr = record tr { ready_recv = tr.ready_recv ++ tr.pending_recv; pending_recv = [] }

  abbrev pub flush_one : DelayedPacket → World → World
  flush_one d w =
      let pkt : Packet = record {
        sender = d.sender;
        bytes = d.bytes;
        reliability = d.reliability;
      } in
      if d.broadcast then broadcast d.sender pkt w else deliver d.recipient pkt w

  -- The packets that stay delayed, and the world after the others went.
  unfoldable pub flush : platform.Double → List DelayedPacket → World → List DelayedPacket × World
  flush now [] w = ([], w)
  flush now (d ∷ ds) w =
      let (kept, w') =
        flush now ds (if platform.double_le d.delivery_time now then flush_one d w else w) in
      (if platform.double_le d.delivery_time now then kept else d ∷ kept, w')

  -- The end of `poll`, after the delayed packets whose time has come were sent.
  unfoldable pub settle : ℕ → List DelayedPacket × World → World
  settle t (kept, w) = elim (lookup t w.transports) [
    | none ↦ w
    | some tr ↦ write t (make_ready (record tr { delayed_outbound = kept })) w
  ]

  unfoldable pub poll : platform.Double → ℕ → Transport → World → World
  poll now t tr w = settle t (flush now tr.delayed_outbound w)

  unfoldable pub pop_receive : ℕ → ℕ → Transport → World → World × Option (ℕ × List ℕ)
  pop_receive max_length t tr w = elim tr.ready_recv [
    | [] ↦ (w, none)
    | pkt ∷ rest ↦
        (write t (record tr { ready_recv = rest }) w, some (pkt.sender, take max_length pkt.bytes))
  ]

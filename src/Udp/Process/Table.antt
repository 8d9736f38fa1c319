-- ===== src/Udp/Process/Table.antt =====
-- The table of connections: what is found after a connection was made or written back.
use campello_net.Prelude.{
  ℕ, ◌≡◌, refl, subst, sym, none, some, List, [], ◌∷◌, ◌++◌, inl, inr, arith, Option-cases,
}
use campello_net.Packet.{PacketHeader, protocol}
use campello_net.Udp.State.{Env, Connection, Impl, fresh_connection}
use campello_net.Udp.Process.{
  find_connection, write_connection, get_or_create_connection, process_from, process_packet,
  touched,
}

module _ ⦃env : Env⦄ where
  pub find-write :
      (c c' : Connection) (cs : List Connection)
      → find_connection c'.address cs ≡ some c
      → find_connection c'.address (write_connection c' cs) ≡ some c'
  unfolding find_connection write_connection
  find-write c c' [] e = cc
  find-write c c' (d ∷ cs) e =
      ground (arith, find-write c c' cs, env.same_address_iff c'.address c'.address)

  pub address_of_find :
      (addr : env.Address) (c : Connection) (cs : List Connection)
      → find_connection addr cs ≡ some c
      → c.address ≡ addr
  unfolding find_connection
  address_of_find addr c [] e = cc
  address_of_find addr c (d ∷ cs) e =
      ground (arith, address_of_find addr c cs, env.same_address_iff d.address addr)

  find-append_fresh :
      (c : Connection) (cs : List Connection)
      → find_connection c.address cs ≡ none
      → find_connection c.address (cs ++ (c ∷ [])) ≡ some c
  unfolding find_connection
  find-append_fresh c [] e = ground (arith, env.same_address_iff c.address c.address)
  find-append_fresh c (d ∷ cs) e = ground (arith, find-append_fresh c cs)

  -- The connection of an address, or the fresh one that its first packet would make.
  unfoldable pub connection_of : env.Double → env.Address → List Connection → Connection
  connection_of now addr cs = elim (find_connection addr cs) [
    | none ↦ fresh_connection addr now
    | some c ↦ c
  ]

  -- After a write, the connection of its address is the one written.
  pub connection_of-write :
      (now : env.Double) (addr : env.Address) (c c' : Connection) (cs : List Connection)
      → c'.address ≡ addr
      → find_connection addr cs ≡ some c
      → connection_of now addr (write_connection c' cs) ≡ c'
  unfolding connection_of
  connection_of-write now addr c c' cs e f = rw (found, connection_of) refl
    where
      found : find_connection addr (write_connection c' cs) ≡ some c'
      found =
          subst (λ a. find_connection a (write_connection c' cs) ≡ some c') e
            (find-write c c' cs (subst (λ a. find_connection a cs ≡ some c) (sym e) f))

  -- `get_or_create_connection` returns that connection, which the table then holds, and changes
  -- nothing else.
  pub get_or_create_lem :
      (now : env.Double) (addr : env.Address) (impl : Impl)
      → let (impl', c) = get_or_create_connection now addr impl in
        (c ≡ connection_of now addr impl.connections)
        × (find_connection addr impl'.connections ≡ some c)
        × (c.address ≡ addr)
        × (impl'.receive_queue ≡ impl.receive_queue)
        × (impl'.fragment_assemblies ≡ impl.fragment_assemblies)
  unfolding get_or_create_connection connection_of
  get_or_create_lem now addr impl = elim (Option-cases (find_connection addr impl.connections)) [
    | inl e ↦
        rw (e, get_or_create_connection, connection_of)
          (refl, find-append_fresh (fresh_connection addr now) impl.connections e, refl, refl, refl)
    | inr (c, e) ↦
        rw (e, get_or_create_connection, connection_of)
          (refl, e, address_of_find addr c impl.connections e, refl, refl)
  ]

  -- A packet of the protocol goes on with the connection of its sender.
  pub process_packet-from :
      (now : env.Double) (impl : Impl) (from : env.Address) (hdr : PacketHeader) (payload : List ℕ)
      → hdr.protocol_id ≡ protocol
      → let (impl', found) = get_or_create_connection now from impl in
        process_packet now impl from hdr payload
        ≡ process_from now from impl' (touched now found) hdr payload
  unfolding process_packet
  process_packet-from now impl from hdr payload e = ground arith

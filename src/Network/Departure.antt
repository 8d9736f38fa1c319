-- ===== src/Network/Departure.antt =====
-- A client that leaves, by its own notice or by `disconnect_client`.
use campello_net.Prelude.{
  ℕ, suc, ◌≡◌, ◌≢◌, refl, ap, sym, subst, ◌∙◌, arith, Bool, true, false, not, Option, none, some,
  List, [], ◌∷◌, if_true, if_false, if◌then◌else◌, ◌==◌, ==_refl, ==_ne, Bool-cases, inl, inr, All,
}
use campello_net.RateLimiter.{Floats}
use campello_net.Network.{sent_to, disconnect_notify, ClientEntry, Manager, note, serves}
use campello_net.Network.Clients.{
  is_address, find_client_by_id, find_client_by_address, remove_client, client_count,
}
use campello_net.Packet.{reliable_ordered}
use campello_net.Network.Sending.{dismiss, sys_packet}
use campello_net.Network.Messages.{remove_and_dismiss, process_disconnect_notify}
use campello_net.Network.Session.{disconnect_client, notify_client, is_client_connected}
use campello_net.Network.Roster.{Key, IsRoster, key, keys}

module _ ⦃floats : Floats⦄ where
  find-remove_self :
      (id : ℕ) (cs : List ClientEntry) → find_client_by_id id (remove_client id cs) ≡ none
  unfolding find_client_by_id remove_client
  find-remove_self id [] = refl
  find-remove_self id (c ∷ cs) = elim (Bool-cases (c.id == id)) [
    | inl e ↦ rw e (find-remove_self id cs)
    | inr e ↦ rw (e, find_client_by_id) (rw e (find-remove_self id cs))
  ]

  find-remove_ne :
      (id l : ℕ) (cs : List ClientEntry)
      → l ≢ id
      → find_client_by_id l (remove_client id cs) ≡ find_client_by_id l cs
  unfolding find_client_by_id remove_client
  find-remove_ne id l [] h = refl
  find-remove_ne id l (c ∷ cs) h = ground (arith, find-remove_ne id l cs h, h)

  remove_unused :
      (id : ℕ) (cs : List ClientEntry)
      → All (λ (k : Key). id ≢ k.id) (keys cs)
      → remove_client id cs ≡ cs
  unfolding remove_client
  remove_unused id [] h = refl
  remove_unused id (c ∷ cs) h =
      rw (==_ne c.id id (λ e. h.0 (sym e))) (ap (◌∷◌ c) (remove_unused id cs h.1))

  -- One entry goes.
  count-remove :
      (id : ℕ) (cs : List ClientEntry) (c : ClientEntry)
      → IsRoster (keys cs)
      → find_client_by_id id cs ≡ some c
      → suc (client_count (remove_client id cs)) ≡ client_count cs
  unfolding find_client_by_id remove_client client_count
  count-remove id [] c w e = ground arith
  count-remove id (d ∷ cs) c w e = elim (Bool-cases (d.id == id)) [
    | inl b ↦
        let same : d.id ≡ id = ground (arith, b) in
        rw
          (
            b,
            w.0,
            remove_unused id cs (subst (λ i. All (λ (k : Key). i ≢ k.id) (keys cs)) same w.2),
          )
          refl
    | inr b ↦
        let rest = count-remove id cs c w.4 (ground (arith, b, e)) in
        rw (b, client_count) (rw w.0 (ap suc rest))
  ]

  dismiss-clients : (id : ℕ) (m : Manager) → (dismiss id m).clients ≡ m.clients
  unfolding dismiss
  dismiss-clients id m = elim (Bool-cases m.has_on_disconnected) [
    | inl e ↦ elim (Bool-cases m.has_replication_manager) [
      | inl f ↦ simp (e, f)
      | inr f ↦ simp (e, f)
    ]
    | inr e ↦ elim (Bool-cases m.has_replication_manager) [
      | inl f ↦ simp (e, f)
      | inr f ↦ simp (e, f)
    ]
  ]

  notify_client-clients :
      (id : ℕ) (c : ClientEntry) (m : Manager) → (notify_client id c m).clients ≡ m.clients
  unfolding notify_client
  notify_client-clients id c m = elim (Bool-cases (id == m.local_client_id)) [
    | inl e ↦ ap (λ (x : Manager). x.clients) (if_true _ _ (id == m.local_client_id) e)
    | inr e ↦
        ap (λ (x : Manager). x.clients) (if_false _ _ (id == m.local_client_id) e)
        ∙ sent c.transport c.address
  ]
    where
      sent :
          (t a : Option ℕ)
          → (elim t as (λ x. Manager) [
            | none ↦ m
            | some t ↦ elim a [
              | none ↦ m
              | some address ↦
                  note (sent_to t address (sys_packet disconnect_notify []) reliable_ordered) m
            ]
          ]).clients
            ≡ m.clients
      sent none a = refl
      sent (some t) none = refl
      sent (some t) (some a) = refl

  some_same : (d c : ClientEntry) → some d ≡ some c → d ≡ c
  some_same d c e = ap (λ o. elim o as (λ x. ClientEntry) [ none ↦ d | some x ↦ x ]) e

  found-All :
      (P : Key → Type 0) (address : ℕ) (cs : List ClientEntry) (c : ClientEntry)
      → All P (keys cs)
      → find_client_by_address address cs ≡ some c
      → P (key c)
  unfolding find_client_by_address
  found-All P address [] c h e = absurd (ground (arith, e))
  found-All P address (d ∷ cs) c h e = elim (Bool-cases (is_address d.address address)) [
    | inl b ↦ subst (λ x. P (key x)) (some_same d c (sym (if_true _ _ _ b) ∙ e)) h.0
    | inr b ↦ found-All P address cs c h.1 (sym (if_false _ _ _ b) ∙ e)
  ]

  -- In a well-formed table an entry found by its address is the one found by its number.
  found_by_id :
      (address : ℕ) (cs : List ClientEntry) (c : ClientEntry)
      → IsRoster (keys cs)
      → find_client_by_address address cs ≡ some c
      → find_client_by_id c.id cs ≡ some c
  unfolding find_client_by_address find_client_by_id
  found_by_id address [] c w e = absurd (ground (arith, e))
  found_by_id address (d ∷ cs) c w e = elim (Bool-cases (is_address d.address address)) [
    | inl b ↦
        subst
          (λ (x : ClientEntry).
            (if d.id == x.id then some d else find_client_by_id x.id cs) ≡ some x)
          (some_same d c (sym (if_true _ _ _ b) ∙ e)) (if_true _ _ (d.id == d.id) (==_refl d.id))
    | inr b ↦
        let later : find_client_by_address address cs ≡ some c = sym (if_false _ _ _ b) ∙ e in
        if_false _ _ (d.id == c.id)
          (==_ne d.id c.id (found-All (λ k. d.id ≢ k.id) address cs c w.2 later))
        ∙ found_by_id address cs c w.4 later
  ]

  -- A client of a server leaves in the same way by its own notice or by the server's
  -- `disconnect_client`: in a well-formed table that client is not connected any more, every other
  -- one is connected as before, and there is one client less.
  pub departure :
      (address l : ℕ) (c : ClientEntry) (m : Manager)
      → l ≢ c.id
      → serves m.mode ≡ true
      → IsRoster (keys m.clients)
      → find_client_by_address address m.clients ≡ some c
      → ((process_disconnect_notify address m).clients ≡ (disconnect_client c.id m).clients)
        × (is_client_connected c.id (disconnect_client c.id m) ≡ false)
        × (is_client_connected l (disconnect_client c.id m) ≡ is_client_connected l m)
        × (suc (client_count (disconnect_client c.id m).clients) ≡ client_count m.clients)
  unfolding process_disconnect_notify remove_and_dismiss disconnect_client is_client_connected
  departure address l c m h e w f = (
    notified ∙ sym disconnected,
    ap is_approved (ap (find_client_by_id c.id) disconnected ∙ find-remove_self c.id m.clients),
    ap is_approved (ap (find_client_by_id l) disconnected ∙ find-remove_ne c.id l m.clients h),
    ap (λ cs. suc (client_count cs)) disconnected ∙ count-remove c.id m.clients c w by_id,
  )
    where
      by_id : find_client_by_id c.id m.clients ≡ some c
      by_id = found_by_id address m.clients c w f

      is_approved : Option ClientEntry → Bool
      is_approved o = elim o [ none ↦ false | some d ↦ d.approved ]

      notified : (process_disconnect_notify address m).clients ≡ remove_client c.id m.clients
      notified =
          ap (λ (x : Manager). x.clients)
            (if_true _ _ (serves m.mode) e
              ∙ ap (λ o. elim o as (λ x. Manager) [ none ↦ m | some d ↦ remove_and_dismiss d.id m ])
                  f)
          ∙ dismiss-clients c.id (record m { clients = remove_client c.id m.clients })

      disconnected : (disconnect_client c.id m).clients ≡ remove_client c.id m.clients
      disconnected =
          ap (λ (x : Manager). x.clients)
            (if_false _ _ (not (serves m.mode)) (ap not e)
              ∙ ap
                  (λ o. elim o as (λ x. Manager) [
                    | none ↦ m
                    | some d ↦ dismiss c.id (record (notify_client c.id d m) {
                      clients = remove_client c.id (notify_client c.id d m).clients;
                    })
                  ])
                  by_id)
          ∙ dismiss-clients c.id _
          ∙ ap (remove_client c.id) (notify_client-clients c.id c m)

-- ===== src/Network/Recipients.antt =====
-- Who gets a copy of what a server broadcasts.
use campello_net.Prelude.{
  ℕ, ◌≡◌, refl, ap, sym, ◌∙◌, Bool, true, false, not, ◌&&◌, ◌||◌, Option, none, some, List, [], ◌∷◌,
  ◌++◌, append_assoc, append-nil, if_false, if◌then◌else◌, ◌==◌, ◌!=◌, Bool-cases, inl, inr,
}
use campello_net.Packet.{PacketReliability}
use campello_net.RateLimiter.{Floats}
use campello_net.Network.{
  Call, sent_to, told_data, Platform, ClientEntry, ReceivedMessage, Manager, note, serves,
}
use campello_net.Network.Sending.{push_message, push_message_to_host_local, flush_to_callbacks}
use campello_net.Network.Session.{is_host_mode}
use campello_net.Network.Traffic.{broadcast, broadcast_each, broadcast_one, count_sent}

module _ ⦃floats : Floats⦄ (bytes : List ℕ) (reliability : PacketReliability)
    (exclude own : ℕ) where
  -- Neither the excluded client nor the host's own one, and approved.
  abbrev pub is_recipient : ClientEntry → Bool
  is_recipient c = not ((c.id == exclude) || (not c.approved || (c.id == own)))

  -- The call for one copy: to the transport, or to the callback for a local client.
  abbrev pub copy_call : Bool → ClientEntry → List Call
  copy_call on_data c = elim c.transport [
    | none ↦ if on_data then told_data c.id bytes ∷ [] else []
    | some t ↦ elim c.address [
      | none ↦ []
      | some address ↦ sent_to t address bytes reliability ∷ []
    ]
  ]

  -- The message for a local client.
  abbrev pub copy_message : ClientEntry → List ReceivedMessage
  copy_message c = elim c.transport [
    | none ↦ record { sender = c.id; payload = bytes } ∷ []
    | some t ↦ []
  ]

  abbrev pub copies {ℓ} : {A : Type ℓ} → (ClientEntry → List A) → List ClientEntry → List A
  copies f [] = []
  copies f (c ∷ cs) = (if is_recipient c then f c else []) ++ copies f cs

module _ ⦃floats : Floats⦄ ⦃platform : Platform⦄ (bytes : List ℕ) (reliability : PacketReliability)
    (exclude own : ℕ) where
  -- What one copy changes.
  one :
      (c : ClientEntry) (m : Manager)
      → ((broadcast_one bytes reliability c m).1.calls
          ≡ m.calls ++ copy_call bytes reliability exclude own m.has_on_data c)
        × ((broadcast_one bytes reliability c m).1.message_queue
            ≡ m.message_queue ++ copy_message bytes reliability exclude own c)
        × ((broadcast_one bytes reliability c m).1.local_client_id ≡ m.local_client_id)
        × ((broadcast_one bytes reliability c m).1.has_on_data ≡ m.has_on_data)
  unfolding broadcast_one push_message flush_to_callbacks
  one c m = go c.transport c.address
    where
      body : Option ℕ → Option ℕ → ClientEntry × Manager
      body t a = elim t [
        | none ↦ (c, flush_to_callbacks c.id bytes (push_message c.id bytes m))
        | some t ↦ elim a [
          | none ↦ (c, m)
          | some address ↦
              let n = note (sent_to t address bytes reliability) m in
              if platform.answer n.calls then (count_sent bytes c, n) else (c, n)
        ]
      ]

      go :
          (t a : Option ℕ)
          → ((body t a).1.calls
              ≡ m.calls ++ elim t [
                | none ↦ if m.has_on_data then told_data c.id bytes ∷ [] else []
                | some t ↦ elim a [
                  | none ↦ []
                  | some address ↦ sent_to t address bytes reliability ∷ []
                ]
              ])
            × ((body t a).1.message_queue
                ≡ m.message_queue
                  ++ elim t [ none ↦ record { sender = c.id; payload = bytes } ∷ [] | some t ↦ [] ])
            × ((body t a).1.local_client_id ≡ m.local_client_id)
            × ((body t a).1.has_on_data ≡ m.has_on_data)
      go none a = elim (Bool-cases m.has_on_data) [
        | inl e ↦ (simp e, simp e, simp e, simp e)
        | inr e ↦ (simp e (sym (append-nil m.calls)), simp e, simp e, simp e)
      ]
      go (some t) none = (sym (append-nil m.calls), sym (append-nil m.message_queue), refl, refl)
      go (some t) (some a) =
          elim (Bool-cases (platform.answer (m.calls ++ (sent_to t a bytes reliability ∷ [])))) [
            | inl e ↦ (rw e refl, rw e (sym (append-nil m.message_queue)), rw e refl, rw e refl)
            | inr e ↦ (rw e refl, rw e (sym (append-nil m.message_queue)), rw e refl, rw e refl)
          ]

  -- What one client changes, a recipient or not.
  step :
      (c : ClientEntry) (m : Manager) (b : Bool)
      → (let n = (if b then (c, m) else broadcast_one bytes reliability c m).1 in
          (n.calls
            ≡ m.calls
              ++ (if not b then copy_call bytes reliability exclude own m.has_on_data c else []))
          × (n.message_queue
              ≡ m.message_queue
                ++ (if not b then copy_message bytes reliability exclude own c else []))
          × (n.local_client_id ≡ m.local_client_id)
          × (n.has_on_data ≡ m.has_on_data))
  step c m true = (sym (append-nil m.calls), sym (append-nil m.message_queue), refl, refl)
  step c m false = one c m

  each :
      (on_data : Bool) (cs : List ClientEntry) (m : Manager)
      → m.local_client_id ≡ own
      → m.has_on_data ≡ on_data
      → ((broadcast_each bytes reliability exclude cs m).1.calls
          ≡ m.calls
            ++ copies bytes reliability exclude own
                (copy_call bytes reliability exclude own on_data)
                cs)
        × ((broadcast_each bytes reliability exclude cs m).1.message_queue
            ≡ m.message_queue
              ++ copies bytes reliability exclude own
                  (copy_message bytes reliability exclude own)
                  cs)
  unfolding broadcast_each
  each on_data [] m e f = (sym (append-nil m.calls), sym (append-nil m.message_queue))
  each on_data (c ∷ cs) m e f =
      let b = (c.id == exclude) || (not c.approved || (c.id == own)) in
      let n = (if b then (c, m) else broadcast_one bytes reliability c m).1 in
      let here = step c m b in
      let rest = each on_data cs n (here.2 ∙ e) (here.3 ∙ f) in
      let moved : (broadcast_each bytes reliability exclude (c ∷ cs) m).1
          ≡ (broadcast_each bytes reliability exclude cs n).1 =
        ap
          (λ (i : ℕ).
            (broadcast_each bytes reliability exclude cs
              (if (c.id == exclude) || (not c.approved || (c.id == i))
                then (c, m)
                else broadcast_one bytes reliability c m).1).1)
          e in
      (
        ap (λ (x : Manager). x.calls) moved
            ∙ rest.0
            ∙ ap
                (λ l.
                  l
                  ++ copies bytes reliability exclude own
                      (copy_call bytes reliability exclude own on_data) cs)
                (here.0
                  ∙ ap
                      (λ d.
                        m.calls
                        ++ (if not b then copy_call bytes reliability exclude own d c else []))
                      f)
            ∙ append_assoc m.calls _ _,
        ap (λ (x : Manager). x.message_queue) moved
            ∙ rest.1
            ∙ ap
                (λ l.
                  l
                  ++ copies bytes reliability exclude own
                      (copy_message bytes reliability exclude own) cs)
                here.1
            ∙ append_assoc m.message_queue _ _,
      )

module _ ⦃floats : Floats⦄ ⦃platform : Platform⦄ where
  -- What a server broadcasts goes once to every approved client but the excluded one and the host's
  -- own, in the order of the table and whether or not a transport took the copies before: to a
  -- remote client by its transport, to a local one as a message in the queue of the received.
  pub broadcast-copies :
      (bytes : List ℕ) (reliability : PacketReliability) (exclude : ℕ) (m : Manager)
      → serves m.mode ≡ true
      → ((broadcast bytes reliability exclude m).calls
          ≡ m.calls
            ++ copies bytes reliability exclude m.local_client_id
                (copy_call bytes reliability exclude m.local_client_id m.has_on_data)
                m.clients)
        × ((broadcast bytes reliability exclude m).message_queue
            ≡ m.message_queue
              ++ copies bytes reliability exclude m.local_client_id
                  (copy_message bytes reliability exclude m.local_client_id)
                  m.clients)
  unfolding broadcast push_message_to_host_local
  broadcast-copies bytes reliability exclude m e = elim (Bool-cases hosts) [
    | inl b ↦
        let queued = push_message_to_host_local m.local_client_id bytes m in
        let all =
          each bytes reliability exclude m.local_client_id m.has_on_data m.clients queued refl
            refl in
        (
          ap (λ (x : Manager). x.calls) serving ∙ ap (λ t. (sent t).calls) b ∙ all.0,
          ap (λ (x : Manager). x.message_queue) serving
              ∙ ap (λ t. (sent t).message_queue) b
              ∙ all.1,
        )
    | inr b ↦
        let all =
          each bytes reliability exclude m.local_client_id m.has_on_data m.clients m refl refl in
        (
          ap (λ (x : Manager). x.calls) serving ∙ ap (λ t. (sent t).calls) b ∙ all.0,
          ap (λ (x : Manager). x.message_queue) serving
              ∙ ap (λ t. (sent t).message_queue) b
              ∙ all.1,
        )
  ]
    where
      hosts : Bool
      hosts = is_host_mode m.mode && ((m.local_client_id != 0) && (m.local_client_id != exclude))

      sent : Bool → Manager
      sent t =
          let own = if t then push_message_to_host_local m.local_client_id bytes m else m in
          let (clients, n) = broadcast_each bytes reliability exclude own.clients own in
          record n { clients = clients }

      serving : broadcast bytes reliability exclude m ≡ sent hosts
      serving = if_false _ _ (not (serves m.mode)) (ap not e)

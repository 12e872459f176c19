-- ===== src/Peer/Watch.antt =====
-- The discovery of nodes in internal/server/peer.go: `fetchAllServices` and `handleWatchEvents`.
use cache_learning_notes.Base.{
  ℕ, ◌≡◌, refl, sym, subst, ap, ◌∙◌, List, [], ◌∷◌, Option, none, some, Bool, true, false, Text,
  text_eq, nat_eq, ◌=?◌, arith, count, ltb, ok, inl, inr, ◌⊎◌, Bool-cases, Option-cases,
}
use cache_learning_notes.Base.Dict.{lookup, delete, lookup-insert, lookup-delete}
use cache_learning_notes.Base.Int.{ℤ}
use cache_learning_notes.ConHash.Lookup.{Sorted}
use cache_learning_notes.ConHash.Map
use cache_learning_notes.ConHash.Map.{Map, is_present}
use cache_learning_notes.ConHash.Members.{
  points_of, add_node-IsAdded, remove_no_lock-IsRemoved, IsAdded,
}
use cache_learning_notes.Peer.Clients.{
  Claimed, owner_apart, added-Claimed, kept_owner, removed-Claimed,
}
use cache_learning_notes.Peer.Picker.{
  ClientPicker, Delivery, batch, channel_closed, context_done, watch_service_changes,
  start_service_discovery, fetch_all_services, Event, was_put, was_deleted, is_peer, fetch_each,
  handle_event, handle_watch_events, set_client, add_to_ring,
}
use cache_learning_notes.Registry.Keys.{service_prefix, trim_prefix}

-- The ring after `Add`.
record Grown (m m' : Map) (addr : Text) : Type 0 where
  sorted : Sorted m'.keys
  claimed : Claimed m'
  owners :
      (k : ℕ) (a : Text)
      → lookup k m'.hash_map ≡ some a
      → ((addr =? a) ≡ true) ⊎ (lookup k m.hash_map ≡ some a)

-- The ring after `Remove`.
record Shrunk (m m' : Map) (addr : Text) : Type 0 where
  sorted : Sorted m'.keys
  claimed : Claimed m'
  owners :
      (k : ℕ) (a : Text)
      → lookup k m'.hash_map ≡ some a
      → (lookup k m.hash_map ≡ some a) × ((addr =? a) ≡ false)

new_or_old :
    (m m' : Map) (addr : Text) (n : ℤ)
    → IsAdded m addr n m'
    → (k : ℕ) (a : Text) → lookup k m'.hash_map ≡ some a
    → ((addr =? a) ≡ true) ⊎ (lookup k m.hash_map ≡ some a)
new_or_old m m' addr n added k a e = elim (Bool-cases (ltb 0 (count k (points_of m addr n)))) [
  | inl p ↦ inl (ground (arith, added.owners k, text_eq.beq_iff addr a))
  | inr p ↦ inr (ground (arith, added.owners k))
]

add-Grown : (m : Map) (addr : Text) → Sorted m.keys → Claimed m → Grown m (Map.add m addr) addr
unfolding Map.add
add-Grown m addr s claimed = elim (Option-cases (lookup addr m.node_replicas)) [
  | inr (n, h) ↦
      rw (Map.add, h, is_present) record { sorted = s; claimed = claimed; owners = λ k a e. inr e }
  | inl h ↦
      let added = add_node-IsAdded m addr m.config.default_replicas in
      rw (Map.add, h, is_present)
        record {
          sorted = added.still;
          claimed = added-Claimed m _ addr m.config.default_replicas added h claimed;
          owners = λ k a e. new_or_old m _ addr m.config.default_replicas added k a e;
        }
]

remove-Shrunk :
    (m : Map) (addr : Text)
    → Sorted m.keys
    → Claimed m
    → (m' : Map) × (Map.remove m addr ≡ ok m') × Shrunk m m' addr
unfolding Map.remove
remove-Shrunk m addr s claimed = elim (Option-cases (lookup addr m.node_replicas)) [
  | inl h ↦ (
    m,
    rw (Map.remove, h, is_present),
    record {
      sorted = s;
      claimed = claimed;
      owners = λ k a e. (e, owner_apart m addr k a claimed h e);
    },
  )
  | inr (n, h) ↦
      let (m', ran, removed) = remove_no_lock-IsRemoved m addr s in
      (
        m',
        rw (Map.remove, h, is_present) ran,
        record {
          sorted = removed.still;
          claimed = removed-Claimed m m' addr removed claimed;
          owners = λ k a e. kept_owner m m' addr removed k a claimed e;
        },
      )
]

no_owner : (m : Map) (k : ℕ) → m.hash_map ≡ [] → lookup k m.hash_map ≡ none
unfolding lookup
no_owner m k h = rw h

-- The invariant of a picker.
pub record HasClients {C : Type 0} (p : ClientPicker C) : Type 0 where
  pub sorted : Sorted p.cons_hash.keys
  pub claimed : Claimed p.cons_hash
  pub reachable :
      (k : ℕ) (a : Text)
      → lookup k p.cons_hash.hash_map ≡ some a
      → (a =? p.self_addr) ≡ false
      → (c : C) × (lookup a p.grpc_cli ≡ some c)

module _ {C : Type 0} where
  pub empty-HasClients :
      (p : ClientPicker C) → p.cons_hash.keys ≡ [] → p.cons_hash.hash_map ≡ [] → HasClients p
  unfolding lookup
  empty-HasClients p h₁ h₂ = record {
    sorted = rw h₁ tt;
    claimed = λ k a e. absurd (ground (arith, no_owner p.cons_hash k h₂));
    reachable = λ k a e. absurd (ground (arith, no_owner p.cons_hash k h₂));
  }

  -- The own address needs no client.
  pub add_self-HasClients :
      (p : ClientPicker C) → HasClients p → HasClients (add_to_ring p p.self_addr)
  add_self-HasClients p v =
      let g = add-Grown p.cons_hash p.self_addr v.sorted v.claimed in
      record {
        sorted = g.sorted;
        claimed = g.claimed;
        reachable = λ k a e other. elim (g.owners k a e) [
          | inl same ↦
              absurd (ground (arith, text_eq.beq_iff p.self_addr a, text_eq.beq_iff a p.self_addr))
          | inr old ↦ v.reachable k a old other
        ];
      }

module _ {C : Type 0} (dial : Text → Option C) where
  -- A node joins: its client and its points.
  joined-HasClients :
      (p : ClientPicker C) (addr : Text) (c : C)
      → HasClients p
      → HasClients (set_client (add_to_ring p addr) addr c)
  joined-HasClients p addr c v =
      let g = add-Grown p.cons_hash addr v.sorted v.claimed in
      record {
        sorted = g.sorted;
        claimed = g.claimed;
        reachable = λ k a e other. elim (Bool-cases (addr =? a)) [
          | inl same ↦ (c, lookup-insert addr a c p.grpc_cli ∙ rw same)
          | inr apart ↦ elim (g.owners k a e) [
            | inl same ↦ absurd (ground arith)
            | inr old ↦
                let (d, is) = v.reachable k a old other in
                (d, lookup-insert addr a c p.grpc_cli ∙ rw apart is)
          ]
        ];
      }

  handle_event-HasClients :
      (ev : Event) (p : ClientPicker C)
      → HasClients p
      → (p' : ClientPicker C) × (handle_event dial ev p ≡ ok p') × HasClients p'
  unfolding handle_event
  handle_event-HasClients (was_put addr) p v = elim (Bool-cases (is_peer p addr)) [
    | inr h ↦ (p, rw h, v)
    | inl h ↦ elim (Option-cases (dial addr)) [
      | inl e ↦ (p, rw (h, e), v)
      | inr (c, e) ↦ (_, rw (h, e), joined-HasClients p addr c v)
    ]
  ]
  handle_event-HasClients (was_deleted key) p v =
      elim (Bool-cases (is_peer p (trim_prefix key (service_prefix p.svc_name)))) [
        | inr h ↦ (p, rw h, v)
        | inl h ↦
            let addr = trim_prefix key (service_prefix p.svc_name) in
            let (m, ran, g) = remove-Shrunk p.cons_hash addr v.sorted v.claimed in
            (
              record p { grpc_cli = delete addr p.grpc_cli; cons_hash = m },
              rw (h, ran),
              record {
                sorted = g.sorted;
                claimed = g.claimed;
                reachable = λ k a e other.
                    let (old, apart) = g.owners k a e in
                    let (c, is) = v.reachable k a old other in
                    (c, lookup-delete addr a p.grpc_cli ∙ rw apart is);
              },
            )
      ]

  handle_watch_events-HasClients :
      (events : List Event) (p : ClientPicker C)
      → HasClients p
      → (p' : ClientPicker C) × (handle_watch_events dial events p ≡ ok p') × HasClients p'
  unfolding handle_watch_events
  handle_watch_events-HasClients [] p v = (p, refl, v)
  handle_watch_events-HasClients (ev ∷ events) p v =
      let (p', ran, w) = handle_event-HasClients ev p v in
      let (p'', ran', w') = handle_watch_events-HasClients events p' w in (p'', rw (ran, ran'), w')

  fetch_skip :
      (addr : Text) (addrs : List Text) (p : ClientPicker C)
      → is_peer p addr ≡ false
      → fetch_each dial (addr ∷ addrs) p ≡ fetch_each dial addrs p
  unfolding fetch_each
  fetch_skip addr addrs p h = rw (fetch_each, h)

  fetch_join :
      (addr : Text) (addrs : List Text) (p : ClientPicker C) (c : C)
      → is_peer p addr ≡ true
      → dial addr ≡ some c
      → fetch_each dial (addr ∷ addrs) p
        ≡ fetch_each dial addrs (set_client (add_to_ring p addr) addr c)
  unfolding fetch_each
  fetch_join addr addrs p c h d = rw (fetch_each, h, d)

  fetch_fail :
      (addr : Text) (addrs : List Text) (p : ClientPicker C)
      → is_peer p addr ≡ true
      → dial addr ≡ none
      → fetch_each dial (addr ∷ addrs) p ≡ (add_to_ring p addr, false)
  unfolding fetch_each
  fetch_fail addr addrs p h d = rw (fetch_each, h, d)

  carried :
      (r r' : ClientPicker C × Bool)
      → r ≡ r'
      → r.1 ≡ true
      → (r'.1 ≡ true → HasClients r'.0)
      → HasClients r.0
  carried r r' e h f =
      subst (λ (x : ClientPicker C × Bool). HasClients x.0) (sym e)
        (f (sym (ap (λ (x : ClientPicker C × Bool). x.1) e) ∙ h))

  -- A full update that returns no error.
  fetch_each-HasClients :
      (addrs : List Text) (p : ClientPicker C)
      → HasClients p
      → (fetch_each dial addrs p).1 ≡ true
      → HasClients (fetch_each dial addrs p).0
  unfolding fetch_each
  fetch_each-HasClients [] p v h = v
  fetch_each-HasClients (addr ∷ addrs) p v h = elim (Bool-cases (is_peer p addr)) [
    | inr e ↦ carried _ _ (fetch_skip addr addrs p e) h (fetch_each-HasClients addrs p v)
    | inl e ↦ elim (Option-cases (dial addr)) [
      | inl d ↦ carried _ _ (fetch_fail addr addrs p e d) h (λ f. absurd (ground arith))
      | inr (c, d) ↦
          carried _ _ (fetch_join addr addrs p c e d) h
            (fetch_each-HasClients addrs _ (joined-HasClients p addr c v))
    ]
  ]

  watch_service_changes-HasClients :
      (deliveries : List Delivery) (p : ClientPicker C)
      → HasClients p
      → (p' : ClientPicker C) × (watch_service_changes dial deliveries p ≡ ok p') × HasClients p'
  unfolding watch_service_changes
  watch_service_changes-HasClients [] p v = (p, refl, v)
  watch_service_changes-HasClients (batch events ∷ rest) p v =
      let (p', ran, w) = handle_watch_events-HasClients events p v in
      let (p'', ran', w') = watch_service_changes-HasClients rest p' w in (p'', rw (ran, ran'), w')
  watch_service_changes-HasClients (channel_closed ∷ rest) p v = (p, refl, v)
  watch_service_changes-HasClients (context_done ∷ rest) p v = (p, refl, v)

  -- If the points are sorted, each owner of a point is a node that has this point, and each owner but
  -- the node itself has a client, and if the full update of startServiceDiscovery returns no error,
  -- then the update and the watch do not panic, whatever the events and the results of dialling, and
  -- this holds afterwards.
  pub start_service_discovery-HasClients :
      (response : Option (List Text)) (deliveries : List Delivery) (p : ClientPicker C)
      → HasClients p
      → (fetch_all_services dial response p).1 ≡ true
      → (p' : ClientPicker C) × (start_service_discovery dial response deliveries p ≡ ok p')
        × HasClients p'
  unfolding start_service_discovery fetch_all_services
  start_service_discovery-HasClients none deliveries p v h = absurd (ground arith)
  start_service_discovery-HasClients (some addrs) deliveries p v h =
      let (p', ran, w) =
        watch_service_changes-HasClients deliveries _ (fetch_each-HasClients addrs p v h) in
      (p', rw h ran, w)

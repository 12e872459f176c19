-- ===== src/Peer/Join.antt =====
-- A node that joins and leaves again, in internal/server/peer.go: the event of the key under which
-- internal/registry/registry.go registers it, and the event of the end of its lease.
use cache_learning_notes.Base.{
  ℕ, ◌≡◌, ◌∙◌, [], ◌∷◌, Option, none, some, true, Text, text_eq, nat_eq, ◌=?◌, arith, count, ltb,
  ok, if◌then◌else◌,
}
use cache_learning_notes.Base.Dict.{lookup, insert, delete, lookup-insert, lookup-delete}
use cache_learning_notes.ConHash.AddRemove.{remove-add}
use cache_learning_notes.ConHash.Lookup.{Sorted}
use cache_learning_notes.ConHash.Members.{points_of}
use cache_learning_notes.Peer.Picker.{
  ClientPicker, was_put, was_deleted, is_peer, handle_event, handle_watch_events, set_client,
  add_to_ring,
}
use cache_learning_notes.Registry.Keys.{service_key, trim_prefix-service_key}

module _ {C : Type 0} (dial : Text → Option C) where
  -- What is left of a node that joined and left.
  pub record IsLeft (p : ClientPicker C) (addr : Text) (p' : ClientPicker C) : Type 0 where
    pub same_points : p'.cons_hash.keys ≡ p.cons_hash.keys
    pub replicas :
        (q : Text) → lookup q p'.cons_hash.node_replicas ≡ lookup q p.cons_hash.node_replicas
    pub owners :
        (k : ℕ)
        → lookup k p'.cons_hash.hash_map ≡ (
            if ltb 0 (count k (points_of p.cons_hash addr p.cons_hash.config.default_replicas))
            then none
            else lookup k p.cons_hash.hash_map)
    pub clients :
        (q : Text) → lookup q p'.grpc_cli ≡ (if addr =? q then none else lookup q p.grpc_cli)

  join :
      (p : ClientPicker C) (addr : Text) (c : C)
      → is_peer p addr ≡ true
      → dial addr ≡ some c
      → handle_event dial (was_put addr) p ≡ ok (add_to_ring (set_client p addr c) addr)
  unfolding handle_event
  join p addr c h d = rw (handle_event, h, d)

  -- On sorted points, the events of a new peer that can be dialled, and of the deletion of the key under
  -- which it was registered, do not panic and give back the points and the replicas; a point of the peer
  -- has no owner and the others the one from before, and only the peer's client is gone.
  pub handle_watch_events-join :
      (p : ClientPicker C) (addr : Text) (c : C)
      → is_peer p addr ≡ true
      → dial addr ≡ some c
      → Sorted p.cons_hash.keys
      → lookup addr p.cons_hash.node_replicas ≡ none
      → (p' : ClientPicker C) × (handle_watch_events dial
            (was_put addr ∷ was_deleted (service_key p.svc_name addr) ∷ [])
            p
          ≡ ok p')
        × IsLeft p addr p'
  unfolding handle_watch_events handle_event
  handle_watch_events-join p addr c h d s new =
      let (m, ran, keys, replicas, owners) = remove-add p.cons_hash addr s new in
      let key = trim_prefix-service_key p.svc_name addr in
      let p' : ClientPicker C = record p {
        cons_hash = m;
        grpc_cli = delete addr (insert addr c p.grpc_cli);
      } in
      (
        p',
        rw (join p addr c h d, key, h, ran),
        record {
          same_points = keys;
          replicas = replicas;
          owners = owners;
          clients = λ q.
              lookup-delete addr q (insert addr c p.grpc_cli)
              ∙ ground (arith, lookup-insert addr q c p.grpc_cli);
        },
      )

-- ===== src/Server/Route.antt =====
-- The routing of a request in internal/server/server.go.
use cache_learning_notes.Base.{
  ◌≡◌, sym, ap, ◌∙◌, [], Option, none, some, Bool, false, Text, text_eq, nat_eq, ◌=?◌, some_eq,
  arith, ok, if◌then◌else◌, inl, inr, Bool-cases,
}
use cache_learning_notes.Base.Dict.{lookup}
use cache_learning_notes.Base.Int.{ℤ}
use cache_learning_notes.ConHash.Lookup.{Sorted}
use cache_learning_notes.ConHash.Dest.{dest, ring_get, dest-owner}
use cache_learning_notes.Peer.Picker.{ClientPicker, pick_peer}
use cache_learning_notes.Peer.Watch.{HasClients}
use cache_learning_notes.Server.Handlers.{Server, route}

module _ {C : Type 0} where
  -- The target of a request: the address and whether it is the own one.
  abbrev pub target : ClientPicker C → Text → Option (Text × Bool)
  target p key =
      let peer = dest p.cons_hash key in
      if peer =? [] then none else some (peer, peer =? p.self_addr)

  abbrev pub with_load : ClientPicker C → ℤ → ClientPicker C
  with_load p n = record p { cons_hash = record p.cons_hash { self_load = n } }

  pub route_lem :
      (s : Server C) (p : ClientPicker C) (key : Text)
      → s.client_picker ≡ some p
      → Sorted p.cons_hash.keys
      → (n : ℤ) × (route s key
          ≡ ok (record s { client_picker = some (with_load p n) }, target p key))
  unfolding route pick_peer
  route_lem s p key has sorted =
      let (n, ran) = ring_get p.cons_hash key sorted in
      elim (Bool-cases (dest p.cons_hash key =? [])) [
        | inl e ↦ (n, rw (has, ran, e))
        | inr e ↦ (n, rw (has, ran, e) (rw e))
      ]

  -- The load does not matter to the invariant.
  pub with_load-HasClients :
      (p : ClientPicker C) (n : ℤ) → HasClients p → HasClients (with_load p n)
  with_load-HasClients p n v = record {
    sorted = v.sorted;
    claimed = v.claimed;
    reachable = v.reachable;
  }

  -- A target that is another node has a client.
  pub target-client :
      (p : ClientPicker C) (key peer : Text)
      → HasClients p
      → target p key ≡ some (peer, false)
      → (c : C) × (lookup peer p.grpc_cli ≡ some c)
  target-client p key peer v h = elim (Bool-cases (dest p.cons_hash key =? [])) [
    | inl e ↦ absurd (ground arith)
    | inr e ↦
        let (k, owner) = dest-owner p.cons_hash key e in
        let now : target p key ≡ some (dest p.cons_hash key, dest p.cons_hash key =? p.self_addr) =
          rw e in
        let both = some_eq (sym now ∙ h) in
        let is : dest p.cons_hash key ≡ peer = ap (λ (x : Text × Bool). x.0) both in
        let (c, has) =
          v.reachable k (dest p.cons_hash key) owner (ap (λ (x : Text × Bool). x.1) both) in
        (c, ap (λ (x : Text). lookup x p.grpc_cli) (sym is) ∙ has)
  ]

-- ===== src/Server/Safe.antt =====
-- `Set`, `Delete` and `Get` of internal/server/server.go on a server that is set up return, wherever
-- the key belongs.
use cache_learning_notes.Base.{
  ◌≡◌, sym, ap, ◌∙◌, Option, none, some, Bool, true, false, Text, text_eq, ok, Exec, inl, inr,
  Option-cases,
}
use cache_learning_notes.Base.Dict.{lookup}
use cache_learning_notes.Peer.Picker.{ClientPicker}
use cache_learning_notes.Server.Handlers
use cache_learning_notes.Server.Handlers.{
  ByteView, Group, Server, Clock, load, get_self, get_from, set_self, set_at, delete_self,
  delete_at, set_to_cache, delete_from_cache, client, route,
}
use cache_learning_notes.Server.Requests.{
  IsReady, StaysReady, stays, delete_from_cache_lem, routed_lem, client_lem,
}
use cache_learning_notes.Server.Route.{target, with_load}
use cache_learning_notes.Database.{World, redis_set, redis_delete}

module _ {C W : Type 0} (world : World C W) where
  -- What a `Set` does to Redis and the peers, and what it answers.
  unfoldable pub set_at_target :
      ClientPicker C → W → Text → ByteView → Option (Text × Bool) → W × Option ByteView
  set_at_target p w key value none = (w, none)
  set_at_target p w key value (some (peer, true)) = ((redis_set world w key value).0, some value)
  set_at_target p w key value (some (peer, false)) = elim (lookup peer p.grpc_cli) [
    | none ↦ (w, none)
    | some c ↦ ((world.peer_set c w key value).0, some value)
  ]

  abbrev pub set_effect : ClientPicker C → W → Text → ByteView → W × Option ByteView
  set_effect p w key value = set_at_target p w key value (target p key)

  -- The same for a `Delete`.
  unfoldable pub delete_at_target :
      ClientPicker C → W → Text → Option (Text × Bool) → W × Option Bool
  delete_at_target p w key none = (w, none)
  delete_at_target p w key (some (peer, true)) = ((redis_delete world w key).0, some true)
  delete_at_target p w key (some (peer, false)) = elim (lookup peer p.grpc_cli) [
    | none ↦ (w, none)
    | some c ↦ ((world.peer_delete c w key).0, some true)
  ]

  abbrev pub delete_effect : ClientPicker C → W → Text → W × Option Bool
  delete_effect p w key = delete_at_target p w key (target p key)

  set_self_lem :
      (s : Server C) (p : ClientPicker C) (g : Group) (w : W) (key : Text) (value : ByteView)
      → IsReady s p g
      → (s' : Server C) × (Handlers.set_self world s w key value
          ≡ ok (s', (redis_set world w key value).0, some value))
        × StaysReady s'
  unfolding Handlers.set_self
  set_self_lem s p g w key value r =
      let (s', g', ran, ready) = delete_from_cache_lem s p g key r in (s', rw ran, stays ready)

  delete_self_lem :
      (s : Server C) (p : ClientPicker C) (g : Group) (w : W) (key : Text)
      → IsReady s p g
      → (s' : Server C) × (Handlers.delete_self world s w key
          ≡ ok (s', (redis_delete world w key).0, some true))
        × StaysReady s'
  unfolding Handlers.delete_self
  delete_self_lem s p g w key r =
      let (s', g', ran, ready) = delete_from_cache_lem s p g key r in (s', rw ran, stays ready)

  set-StaysReady :
      (s : Server C) (p : ClientPicker C) (g : Group) (w : W) (key : Text) (value : ByteView)
      → IsReady s p g
      → (s' : Server C) × (Handlers.set world s w key value
          ≡ ok (s', (set_effect p w key value).0, (set_effect p w key value).1))
        × StaysReady s'
  unfolding Handlers.set Handlers.set_at set_at_target
  set-StaysReady s p g w key value r =
      let (n, ran, ready) = routed_lem s p g key r in
      let s₁ : Server C = record s { client_picker = some (with_load p n) } in
      let to = λ (t : Option (Text × Bool)) (h : target p key ≡ t).
        ran ∙ ap {B = Exec (Server C × Option (Text × Bool))} (λ x. ok (s₁, x)) h in
      let told = λ (s' : Server C) (t : Option (Text × Bool)) (h : target p key ≡ t).
        ap {B = Exec (Server C × W × Option ByteView)}
          (λ x. ok (s', (set_at_target p w key value x).0, (set_at_target p w key value x).1))
          (sym h) in
      elim (Option-cases (target p key)) [
        | inl h ↦ (s₁, rw (to none h) (told s₁ none h), stays ready)
        | inr ((peer, true), h) ↦
            let (s', done, kept) = set_self_lem s₁ (with_load p n) g w key value ready in
            (s', rw (to (some (peer, true)) h, done) (told s' (some (peer, true)) h), kept)
        | inr ((peer, false), h) ↦
            let (c, has, found) = client_lem s₁ (with_load p n) g key peer ready h in
            let answer : set_at_target p w key value (some (peer, false))
                ≡ ((world.peer_set c w key value).0, some value) =
              rw (set_at_target, has) in
            (
              s₁,
              rw (to (some (peer, false)) h, found)
                  (ap {B = Exec (Server C × W × Option ByteView)} (λ x. ok (s₁, x.0, x.1))
                      (sym answer)
                    ∙ told s₁ (some (peer, false)) h),
              stays ready,
            )
      ]

  delete-StaysReady :
      (s : Server C) (p : ClientPicker C) (g : Group) (w : W) (key : Text)
      → IsReady s p g
      → (s' : Server C) × (Handlers.delete world s w key
          ≡ ok (s', (delete_effect p w key).0, (delete_effect p w key).1))
        × StaysReady s'
  unfolding Handlers.delete Handlers.delete_at delete_at_target
  delete-StaysReady s p g w key r =
      let (n, ran, ready) = routed_lem s p g key r in
      let s₁ : Server C = record s { client_picker = some (with_load p n) } in
      let to = λ (t : Option (Text × Bool)) (h : target p key ≡ t).
        ran ∙ ap {B = Exec (Server C × Option (Text × Bool))} (λ x. ok (s₁, x)) h in
      let told = λ (s' : Server C) (t : Option (Text × Bool)) (h : target p key ≡ t).
        ap {B = Exec (Server C × W × Option Bool)}
          (λ x. ok (s', (delete_at_target p w key x).0, (delete_at_target p w key x).1)) (sym h) in
      elim (Option-cases (target p key)) [
        | inl h ↦ (s₁, rw (to none h) (told s₁ none h), stays ready)
        | inr ((peer, true), h) ↦
            let (s', done, kept) = delete_self_lem s₁ (with_load p n) g w key ready in
            (s', rw (to (some (peer, true)) h, done) (told s' (some (peer, true)) h), kept)
        | inr ((peer, false), h) ↦
            let (c, has, found) = client_lem s₁ (with_load p n) g key peer ready h in
            let answer : delete_at_target p w key (some (peer, false))
                ≡ ((world.peer_delete c w key).0, some true) =
              rw (delete_at_target, has) in
            (
              s₁,
              rw (to (some (peer, false)) h, found)
                  (ap {B = Exec (Server C × W × Option Bool)} (λ x. ok (s₁, x.0, x.1)) (sym answer)
                    ∙ told s₁ (some (peer, false)) h),
              stays ready,
            )
      ]

  -- On a server that is set up, whose owners all have a client or are the node itself, Set and Delete
  -- do not panic and leave the server set up, wherever the key belongs. Set writes to Redis on the
  -- node of the key and asks the peer otherwise, and answers with the value; Delete does the same.
  -- Both answer with an error if the ring has no node.
  pub write-StaysReady :
      (s : Server C) (p : ClientPicker C) (g : Group) (w : W) (key : Text) (value : ByteView)
      → IsReady s p g
      → ((s' : Server C) × (Handlers.set world s w key value
            ≡ ok (s', (set_effect p w key value).0, (set_effect p w key value).1))
          × StaysReady s')
        × ((s' : Server C) × (Handlers.delete world s w key
              ≡ ok (s', (delete_effect p w key).0, (delete_effect p w key).1))
            × StaysReady s')
  write-StaysReady s p g w key value r =
      (set-StaysReady s p g w key value r, delete-StaysReady s p g w key r)

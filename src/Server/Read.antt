-- ===== src/Server/Read.antt =====
-- `Get` of internal/server/server.go on a server that is set up, and after a write of a key that belongs
-- to the node.
use cache_learning_notes.Base.{
  ◌≡◌, refl, sym, ap, ◌∙◌, Option, none, some, Bool, true, false, Text, text_eq, ok, Exec, inl, inr,
  Option-cases,
}
use cache_learning_notes.Base.Dict.{lookup}
use cache_learning_notes.Base.Int.{ℤ}
use cache_learning_notes.Layer.Cache.{Value, Calls}
use cache_learning_notes.Peer.Picker.{ClientPicker}
use cache_learning_notes.Server.Handlers
use cache_learning_notes.Server.Handlers.{
  ByteView, Group, Server, Clock, load, get_self, get_from, set_self, delete_self,
  delete_from_cache, client, route, set_to_cache,
}
use cache_learning_notes.Server.Requests.{
  IsReady, StaysReady, stays, set_to_cache_lem, client_lem, cached,
}
use cache_learning_notes.Server.Route.{target, with_load, route_lem, with_load-HasClients}
use cache_learning_notes.Database.{World, redis_get}
use cache_learning_notes.Store.Methods.{get_on_store_lem}
use cache_learning_notes.Store.Ops

module _ {C W : Type 0} (world : World C W) where
  pub load_lem :
      (s : Server C) (p : ClientPicker C) (g : Group) (w : W) (key : Text) (now : ℤ)
      → IsReady s p g
      → (s' : Server C) × (load world s w key now
          ≡ ok (s', (redis_get world w key).0, (redis_get world w key).1))
        × StaysReady s'
  unfolding load
  load_lem s p g w key now r = elim (Option-cases (redis_get world w key).1) [
    | inl h ↦ (s, rw (load, h), stays r)
    | inr (v, h) ↦
        let (s', g', ran, ready) = set_to_cache_lem s p g key v now r in
        (s', rw (load, h, ran), stays ready)
  ]

  -- What the cache answers, or else Redis.
  unfoldable pub served : Option (Value ByteView) → W → Text → W × Option ByteView
  served none w key = redis_get world w key
  served (some value) w key = (w, value)

  get_self_lem :
      (s : Server C) (p : ClientPicker C) (g : Group) (w : W) (key : Text) (clock : Clock)
      → (r : IsReady s p g)
      → ((v : Value ByteView)
          → cached g r.group key clock.first clock.second ≡ some v
          → (b : ByteView) × (v ≡ some b))
      → (s' : Server C) × (get_self world s w key clock
          ≡ ok (
            s',
            (served (cached g r.group key clock.first clock.second) w key).0,
            (served (cached g r.group key clock.first clock.second) w key).1,
          ))
        × StaysReady s'
  unfolding get_self served
  get_self_lem s p g w key clock r no_nil =
      let e =
        get_on_store_lem g.cache r.group.first r.group.second r.group.view r.group.store key
          clock.first clock.second in
      let g' : Group = record g { cache = e.after } in
      let s₁ : Server C = record s { groups = some g' } in
      let ready : IsReady s₁ p g' = record {
        has_picker = r.has_picker;
        has_group = refl;
        clients = r.clients;
        group = record {
          first = r.group.first;
          second = r.group.second;
          view = _;
          store = e.well_formed;
        };
      } in
      let answered =
        λ (o : Option (Value ByteView)) (h : cached g r.group key clock.first clock.second ≡ o).
          e.ran
          ∙ ap {B = Exec (Ops.Store ByteView × (Option (Value ByteView) × Calls ByteView))}
              (λ z. ok (e.after, (z, e.result.1))) (e.holds.answered ∙ h) in
      elim (Option-cases (cached g r.group key clock.first clock.second)) [
        | inl h ↦
            let (s', ran, kept) = load_lem s₁ p g' w key clock.third ready in
            (s', rw (get_self, r.has_group, answered none h, h, served) ran, kept)
        | inr (v, h) ↦
            let (b, is) = no_nil v h in
            (s₁, rw (get_self, r.has_group, answered (some v) h, h, is, served), stays ready)
      ]

  -- Where a `Get` is answered.
  unfoldable pub get_at_target :
      ClientPicker C
      → W
      → Text
      → Option (Value ByteView)
      → Option (Text × Bool)
      → W × Option ByteView
  get_at_target p w key held none = (w, none)
  get_at_target p w key held (some (peer, true)) = served held w key
  get_at_target p w key held (some (peer, false)) = elim (lookup peer p.grpc_cli) [
    | none ↦ (w, none)
    | some c ↦ world.peer_get c w key
  ]

  -- On a server that is set up, whose owners all have a client or are the node itself, Get does not
  -- panic and leaves the server set up, if the cache answers no nil value. A key of the node comes from
  -- the cache or else from Redis, another from the client of its peer, and an empty ring is an error.
  pub get-StaysReady :
      (s : Server C) (p : ClientPicker C) (g : Group) (w : W) (key : Text) (clock : Clock)
      → (r : IsReady s p g)
      → ((v : Value ByteView)
          → cached g r.group key clock.first clock.second ≡ some v
          → (b : ByteView) × (v ≡ some b))
      → (s' : Server C) × (let held = cached g r.group key clock.first clock.second in
          let e = get_at_target p w key held (target p key) in
          Handlers.get world s w key clock ≡ ok (s', e.0, e.1))
        × StaysReady s'
  unfolding Handlers.get Handlers.get_from get_at_target
  get-StaysReady s p g w key clock r no_nil =
      let (n, ran) = route_lem s p key r.has_picker r.clients.sorted in
      let s₁ : Server C = record s { client_picker = some (with_load p n) } in
      let ready : IsReady s₁ (with_load p n) g = record {
        has_picker = refl;
        has_group = r.has_group;
        clients = with_load-HasClients p n r.clients;
        group = r.group;
      } in
      let held = cached g r.group key clock.first clock.second in
      let to = λ (t : Option (Text × Bool)) (h : target p key ≡ t).
        ran ∙ ap {B = Exec (Server C × Option (Text × Bool))} (λ x. ok (s₁, x)) h in
      let told = λ (s' : Server C) (t : Option (Text × Bool)) (h : target p key ≡ t).
        ap {B = Exec (Server C × W × Option ByteView)}
          (λ x. ok (s', (get_at_target p w key held x).0, (get_at_target p w key held x).1))
          (sym h) in
      elim (Option-cases (target p key)) [
        | inl h ↦ (s₁, rw (to none h) (told s₁ none h), stays ready)
        | inr ((peer, true), h) ↦
            let (s', done, kept) = get_self_lem s₁ (with_load p n) g w key clock ready no_nil in
            (s', rw (to (some (peer, true)) h, done) (told s' (some (peer, true)) h), kept)
        | inr ((peer, false), h) ↦
            let (c, has, found) = client_lem s₁ (with_load p n) g key peer ready h in
            let answer : get_at_target p w key held (some (peer, false)) ≡ world.peer_get c w key =
              rw (get_at_target, has) in
            (
              s₁,
              rw (to (some (peer, false)) h, found)
                  (ap {B = Exec (Server C × W × Option ByteView)} (λ x. ok (s₁, x.0, x.1))
                      (sym answer)
                    ∙ told s₁ (some (peer, false)) h),
              stays ready,
            )
      ]

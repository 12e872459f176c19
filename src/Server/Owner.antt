-- ===== src/Server/Owner.antt =====
-- A key that belongs to the node, in internal/server/server.go: a read after a write, and after a
-- deletion.
use cache_learning_notes.Base.{
  ◌≡◌, refl, ap, ◌∙◌, Option, none, some, Bool, true, Text, text_eq, ok, Exec,
}
use cache_learning_notes.Peer.Picker.{ClientPicker}
use cache_learning_notes.Server.Handlers
use cache_learning_notes.Server.Handlers.{
  ByteView, Group, Server, Clock, load, get_self, set_self, delete_self, delete_from_cache, route,
  set_to_cache,
}
use cache_learning_notes.Server.Read.{load_lem}
use cache_learning_notes.Server.Requests.{IsGroup, IsReady, routed_lem}
use cache_learning_notes.Server.Route.{target, with_load}
use cache_learning_notes.Database.{World, RedisKeeps, redis_get, redis_set, redis_delete}
use cache_learning_notes.Store.RoundTrip.{forgotten}

module _ {C W : Type 0} (world : World C W) where
  -- After a deletion from the cache a read of the key goes to Redis.
  pub record Forgets (s : Server C) (p : ClientPicker C) (key : Text) (clock : Clock) : Type 0 where
    pub after : Server C
    pub group : Group
    pub left : Group
    pub ran : delete_from_cache s key ≡ ok after
    pub ready : IsReady after p group
    pub reads :
        (t : Server C) (w : W)
        → t.groups ≡ some group
        → get_self world t w key clock
          ≡ load world (record t { groups = some left }) w key clock.third
    pub left_group : IsGroup left

  forgets :
      (s : Server C) (p : ClientPicker C) (g : Group) (key : Text) (clock : Clock)
      → IsReady s p g
      → Forgets s p key clock
  unfolding delete_from_cache get_self
  forgets s p g key clock r =
      let (c₁, c₂, view₁, view, res, calls, deleted, store₁, found, store) =
        forgotten g.cache r.group.first r.group.second r.group.view r.group.store key clock.first
          clock.second in
      let g₁ : Group = record g { cache = c₁ } in
      let g₂ : Group = record g { cache = c₂ } in
      record {
        after = record s { groups = some g₁ };
        group = g₁;
        left = g₂;
        ran = rw (r.has_group, deleted);
        ready = record {
          has_picker = r.has_picker;
          has_group = refl;
          clients = r.clients;
          group = record {
            first = r.group.first;
            second = r.group.second;
            view = view₁;
            store = store₁;
          };
        };
        reads = λ t w h. rw (get_self, h, found);
        left_group = record {
          first = r.group.first;
          second = r.group.second;
          view = view;
          store = store;
        };
      }

  -- A read after the write or the deletion, up to what Redis answers.
  reread :
      (s : Server C) (p : ClientPicker C) (w : W) (key peer : Text) (clock : Clock)
      → (f : Forgets s p key clock) → target p key ≡ some (peer, true)
      → (s' : Server C) × (Handlers.get world f.after w key clock
          ≡ ok (s', (redis_get world w key).0, (redis_get world w key).1))
  unfolding Handlers.get
  reread s p w key peer clock f h =
      let (n, ran, ready) = routed_lem f.after p f.group key f.ready in
      let s₁ : Server C = record f.after { client_picker = some (with_load p n) } in
      let to = ran ∙ ap {B = Exec (Server C × Option (Text × Bool))} (λ x. ok (s₁, x)) h in
      let s₂ : Server C = record s₁ { groups = some f.left } in
      let ready' : IsReady s₂ (with_load p n) f.left = record {
        has_picker = refl;
        has_group = refl;
        clients = ready.clients;
        group = f.left_group;
      } in
      let (s', done, kept) = load_lem world s₂ (with_load p n) f.left w key clock.third ready' in
      (s', rw (to, f.reads s₁ w ready.has_group) done)

  set-get :
      (s : Server C) (p : ClientPicker C) (g : Group) (w : W) (key peer : Text) (value : ByteView)
      (clock : Clock)
      → IsReady s p g
      → target p key ≡ some (peer, true)
      → RedisKeeps world
      → (redis_set world w key value).1 ≡ true
      → (s' : Server C) × (s'' : Server C) × (w'' : W) × (Handlers.set world s w key value
          ≡ ok (s', (redis_set world w key value).0, some value))
        × (Handlers.get world s' (redis_set world w key value).0 key clock
            ≡ ok (s'', w'', some value))
  unfolding Handlers.set set_self redis_get redis_set
  set-get s p g w key peer value clock r h redis written =
      let (n, ran, ready) = routed_lem s p g key r in
      let s₁ : Server C = record s { client_picker = some (with_load p n) } in
      let to = ran ∙ ap {B = Exec (Server C × Option (Text × Bool))} (λ x. ok (s₁, x)) h in
      let f = forgets s₁ (with_load p n) g key clock ready in
      let (s'', read) =
        reread s₁ (with_load p n) (redis_set world w key value).0 key peer clock f h in
      (
        f.after,
        s'',
        (redis_get world (redis_set world w key value).0 key).0,
        rw (to, f.ran),
        read ∙ rw (redis.get_set w key value written),
      )

  delete-get :
      (s : Server C) (p : ClientPicker C) (g : Group) (w : W) (key peer : Text) (clock : Clock)
      → IsReady s p g
      → target p key ≡ some (peer, true)
      → RedisKeeps world
      → (redis_delete world w key).1 ≡ true
      → (s' : Server C) × (s'' : Server C) × (w'' : W) × (Handlers.delete world s w key
          ≡ ok (s', (redis_delete world w key).0, some true))
        × (Handlers.get world s' (redis_delete world w key).0 key clock ≡ ok (s'', w'', none))
  unfolding Handlers.delete delete_self redis_get redis_delete
  delete-get s p g w key peer clock r h redis deleted =
      let (n, ran, ready) = routed_lem s p g key r in
      let s₁ : Server C = record s { client_picker = some (with_load p n) } in
      let to = ran ∙ ap {B = Exec (Server C × Option (Text × Bool))} (λ x. ok (s₁, x)) h in
      let f = forgets s₁ (with_load p n) g key clock ready in
      let (s'', read) = reread s₁ (with_load p n) (redis_delete world w key).0 key peer clock f h in
      (
        f.after,
        s'',
        (redis_get world (redis_delete world w key).0 key).0,
        rw (to, f.ran),
        read ∙ rw (redis.get_delete w key deleted),
      )

  -- On a server that is set up, with a key of the node itself and a Redis that keeps what it
  -- acknowledged and acknowledges the write of the value and the deletion of the key: a read after Set
  -- answers with the value that was written, and a read after Delete fails. Nothing panics.
  pub write-get :
      (s : Server C) (p : ClientPicker C) (g : Group) (w : W) (key peer : Text) (value : ByteView)
      (clock : Clock)
      → IsReady s p g
      → target p key ≡ some (peer, true)
      → RedisKeeps world
      → (redis_set world w key value).1 ≡ true
      → (redis_delete world w key).1 ≡ true
      → ((s' : Server C) × (s'' : Server C) × (w'' : W) × (Handlers.set world s w key value
            ≡ ok (s', (redis_set world w key value).0, some value))
          × (Handlers.get world s' (redis_set world w key value).0 key clock
              ≡ ok (s'', w'', some value)))
        × ((s' : Server C) × (s'' : Server C) × (w'' : W) × (Handlers.delete world s w key
              ≡ ok (s', (redis_delete world w key).0, some true))
            × (Handlers.get world s' (redis_delete world w key).0 key clock ≡ ok (s'', w'', none)))
  write-get s p g w key peer value clock r h redis written deleted = (
    set-get s p g w key peer value clock r h redis written,
    delete-get s p g w key peer clock r h redis deleted,
  )

-- ===== src/Server/Handlers.antt =====
-- The types `Server` and `Group` of internal/server/server.go and group.go and their methods, and
-- `ByteView` of pkg/store/view.go. A nil pointer, client or value that is used is a panic. A request
-- runs alone, so that `singleflight.Do` is a call of its function. The readings of the clock are
-- arguments; the calls of the group's callback are left out.
use cache_learning_notes.Base.{
  ℕ, List, [], ◌∷◌, Option, none, some, Bool, true, false, ◌||◌, not, Text, text_eq, ◌=?◌, Exec, ok,
  panic, ◌>>=◌, length, if◌then◌else◌,
}
use cache_learning_notes.Base.Dict.{lookup}
use cache_learning_notes.Base.Int.{ℤ}
use cache_learning_notes.ConHash.Map
use cache_learning_notes.Peer.Picker
use cache_learning_notes.Peer.Picker.{ClientPicker, pick_peer}
use cache_learning_notes.Registry.Register.{Answers, Request, register}
use cache_learning_notes.Database.{
  World, Redis, default_config, new_redis, redis_get, redis_set, redis_delete,
}
use cache_learning_notes.Store.Ops
use cache_learning_notes.Store.Ops.{Store, Options, CacheType, new_store}

-- `ByteView`: its bytes.
abbrev pub ByteView : Type 0
ByteView = Text

-- `ByteView.Len`
unfoldable pub byte_len : ByteView → ℕ
byte_len v = length v

-- `cloneByteView` and `Slice`: a copy of the bytes.
unfoldable pub clone_byte_view : ByteView → ByteView
clone_byte_view [] = []
clone_byte_view (x ∷ v) = x ∷ clone_byte_view v

pub record Group : Type 0 where
  pub svc_name : Text
  pub self_addr : Text
  pub cache : Store ByteView
  pub opts : Options

unfoldable pub new_group : Text → Text → Options → CacheType → Group
new_group svc_name self_addr opts cache_type = record {
  svc_name = svc_name;
  self_addr = self_addr;
  cache = new_store cache_type opts;
  opts = opts;
}

unfoldable pub close_group : Group → Group
close_group g = record g { cache = Ops.close g.cache }

-- `is_stopped` says whether `stopCh` is closed, `has_grpc_server` whether `grpcServer` is set.
pub record Server (C : Type 0) : Type 0 where
  pub svc_name : Text
  pub self_addr : Text
  pub client_picker : Option (ClientPicker C)
  pub groups : Option Group
  pub is_stopped : Bool
  pub redis : Redis
  pub has_grpc_server : Bool

-- The use of a pointer or of an interface value that may be nil.
abbrev pub deref : {A : Type 0} → Option A → Exec A
deref none = panic
deref (some a) = ok a

-- The three readings of the clock that a `Get` of the server may make.
pub record Clock : Type 0 where
  pub first : ℤ
  pub second : ℤ
  pub third : ℤ

module _ {C : Type 0} where
  unfoldable pub new_server : Text → Text → Server C
  new_server self_addr svc_name = record {
    svc_name = svc_name;
    self_addr = self_addr;
    client_picker = none;
    groups = none;
    is_stopped = false;
    redis = new_redis default_config;
    has_grpc_server = false;
  }

  unfoldable pub register_peers_to_server : ClientPicker C → Server C → Server C
  register_peers_to_server picker server = record server { client_picker = some picker }

  unfoldable pub register_group_to_server : Group → Server C → Server C
  register_group_to_server group server = record server { groups = some group }

  -- `Start`: the requests to etcd, and whether the error is nil; `listens` says whether the address
  -- could be listened on. The error of `Register` is not looked at.
  unfoldable pub start : Answers → Bool → Server C → Exec (Server C × List Request × Bool)
  start answers listens s = elim s.client_picker [
    | none ↦ ok (s, [], false)
    | some picker ↦ elim s.groups [
      | none ↦ ok (s, [], false)
      | some _ ↦ do
        (requests, _) ← register answers s.svc_name s.self_addr
        let ring = Map.add picker.cons_hash s.self_addr
        let s' = record s { client_picker = some (record picker { cons_hash = ring }) }
        ok (if listens then record s' { has_grpc_server = true } else s', requests, listens)
    ]
  ]

  unfoldable pub close : Server C → Exec (Server C)
  close s = if s.is_stopped then panic else (do
    picker ← deref s.client_picker
    group ← deref s.groups
    let s' = record s {
      is_stopped = true;
      client_picker = some (Picker.close picker);
      groups = some (close_group group);
    }
    if s.has_grpc_server then ok s' else panic)

  -- The routing that the three requests begin with: the server, the address, and whether it is the
  -- own one. `none` is the error "failed to pick peer".
  unfoldable pub route : Server C → Text → Exec (Server C × Option (Text × Bool))
  unfolding pick_peer
  route s key = do
    picker ← deref s.client_picker
    (picker', peer, found, self) ← pick_peer picker key
    let s' = record s { client_picker = some picker' }
    ok (s', if not found || (peer =? []) then none else some (peer, self))

  -- `s.clientPicker.grpcCli[peer]`, for a call.
  unfoldable pub client : Server C → Text → Exec C
  client s peer = do picker ← deref s.client_picker; deref (lookup peer picker.grpc_cli)

  -- `SetToCache`
  unfoldable pub set_to_cache : Server C → Text → ByteView → ℤ → Exec (Server C)
  set_to_cache s key value now = do
    group ← deref s.groups
    (cache, _) ← Ops.set group.cache key (some value) now
    ok (record s { groups = some (record group { cache = cache }) })

  -- `s.groups.cache.Delete(key)`
  unfoldable pub delete_from_cache : Server C → Text → Exec (Server C)
  delete_from_cache s key = do
    group ← deref s.groups
    (cache, _) ← Ops.delete group.cache key
    ok (record s { groups = some (record group { cache = cache }) })

  module _ {W : Type 0} (world : World C W) where
    -- A key that the cache does not hold comes from Redis and goes into the cache.
    unfoldable pub load : Server C → W → Text → ℤ → Exec (Server C × W × Option ByteView)
    unfolding set_to_cache
    load s w key now = elim (redis_get world w key).1 [
      | none ↦ ok (s, (redis_get world w key).0, none)
      | some value ↦ do
        s' ← set_to_cache s key value now
        ok (s', (redis_get world w key).0, some value)
    ]

    unfoldable pub get_self : Server C → W → Text → Clock → Exec (Server C × W × Option ByteView)
    unfolding load
    get_self s w key clock = do
      group ← deref s.groups
      (cache, r) ← Ops.get group.cache key clock.first clock.second
      let s' = record s { groups = some (record group { cache = cache }) }
      elim r.0 [
        | none ↦ load s' w key clock.third
        | some value ↦ do v ← deref value; ok (s', w, some v)
      ]

    unfoldable pub get_from : Server C → W → Text → Text → Exec (Server C × W × Option ByteView)
    unfolding client
    get_from s w peer key = do
      c ← client s peer
      ok (s, (world.peer_get c w key).0, (world.peer_get c w key).1)

    -- `none` is an error.
    unfoldable pub get : Server C → W → Text → Clock → Exec (Server C × W × Option ByteView)
    unfolding route get_self get_from
    get s w key clock = do
      (s', target) ← route s key
      elim target [
        | none ↦ ok (s', w, none)
        | some (peer, self) ↦ if self then get_self s' w key clock else get_from s' w peer key
      ]

    unfoldable pub set_self : Server C → W → Text → ByteView → Exec (Server C × W × Option ByteView)
    unfolding delete_from_cache
    set_self s w key value = do
      let w' = (redis_set world w key value).0
      s' ← delete_from_cache s key
      ok (s', w', some value)

    unfoldable pub set_at :
        Server C → W → Text → Text → ByteView → Exec (Server C × W × Option ByteView)
    unfolding client
    set_at s w peer key value = do
      c ← client s peer
      ok (s, (world.peer_set c w key value).0, some value)

    unfoldable pub set : Server C → W → Text → ByteView → Exec (Server C × W × Option ByteView)
    unfolding route set_self set_at
    set s w key value = do
      (s', target) ← route s key
      elim target [
        | none ↦ ok (s', w, none)
        | some (peer, self) ↦ if self then set_self s' w key value else set_at s' w peer key value
      ]

    unfoldable pub delete_self : Server C → W → Text → Exec (Server C × W × Option Bool)
    unfolding delete_from_cache
    delete_self s w key = do
      let w' = (redis_delete world w key).0
      s' ← delete_from_cache s key
      ok (s', w', some true)

    unfoldable pub delete_at : Server C → W → Text → Text → Exec (Server C × W × Option Bool)
    unfolding client
    delete_at s w peer key = do c ← client s peer; ok (s, (world.peer_delete c w key).0, some true)

    unfoldable pub delete : Server C → W → Text → Exec (Server C × W × Option Bool)
    unfolding route delete_self delete_at
    delete s w key = do
      (s', target) ← route s key
      elim target [
        | none ↦ ok (s', w, none)
        | some (peer, self) ↦ if self then delete_self s' w key else delete_at s' w peer key
      ]

    -- The wrappers; the result of the first two says whether the error is nil.
    unfoldable pub set_to_cache_and_redis :
        Server C → W → Text → ByteView → Exec (Server C × W × Bool)
    unfolding set
    set_to_cache_and_redis s w key value = do
      (s', w', flag) ← set s w key value
      ok (s', w', elim flag [ none ↦ false | some v ↦ not (v =? []) ])

    unfoldable pub delete_cache_and_redis : Server C → W → Text → Exec (Server C × W × Bool)
    unfolding delete
    delete_cache_and_redis s w key = do
      (s', w', flag) ← delete s w key
      ok (s', w', elim flag [ none ↦ false | some v ↦ v ])

    unfoldable pub get_from_cache_and_redis :
        Server C → W → Text → Clock → Exec (Server C × W × Option ByteView)
    unfolding get
    get_from_cache_and_redis s w key clock = get s w key clock

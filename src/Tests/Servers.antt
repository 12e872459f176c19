-- ===== src/Tests/Servers.antt =====
-- The server, the picker and the registry of internal/server and internal/registry at concrete inputs: a
-- node `a`, whose ring has three points, and a Redis that is a map.
use cache_learning_notes.Base.{
  ◌≡◌, refl, ◌∙◌, List, [], ◌∷◌, Option, none, some, true, false, Text, text_eq, text_beq, arith,
  =?_refl, ok, panic,
}
use cache_learning_notes.Base.Dict.{lookup, insert, delete, lookup-insert, lookup-delete}
use cache_learning_notes.Base.Int.{pos}
use cache_learning_notes.ConHash.Map
use cache_learning_notes.ConHash.Snapshot.{
  update_hash_ring, sync_hash_ring, carry_owners, carried, carried_from, following_bytes, lead,
  between,
}
use cache_learning_notes.ConHash.Map.{Map}
use cache_learning_notes.ConHash.Lookup.{successor}
use cache_learning_notes.Layer.Cache.{Value}
use cache_learning_notes.Layer.Spec
use cache_learning_notes.Peer.Join.{IsLeft, handle_watch_events-join}
use cache_learning_notes.Peer.Picker.{
  ClientPicker, Delivery, batch, channel_closed, start_service_discovery, was_put, was_deleted,
  handle_watch_events, add_to_ring, is_peer, fetch_all_services, fetch_each, pick_peer,
}
use cache_learning_notes.Peer.Watch.{
  HasClients, empty-HasClients, add_self-HasClients, start_service_discovery-HasClients,
}
use cache_learning_notes.Registry.Keys.{service_key}
use cache_learning_notes.Registry.Register.{register, full_addr, get_local_ip, first_ip}
use cache_learning_notes.Server.Handlers
use cache_learning_notes.Server.Handlers.{
  ByteView, Group, Server, Clock, new_group, new_server, register_group_to_server,
  register_peers_to_server, route,
}
use cache_learning_notes.Server.Owner.{write-get}
use cache_learning_notes.Server.Read.{get_at_target, get-StaysReady}
use cache_learning_notes.Server.Requests.{IsReady, StaysReady, IsGroup, cached}
use cache_learning_notes.Server.Route.{target}
use cache_learning_notes.Server.Safe.{set_effect, delete_effect, write-StaysReady}
use cache_learning_notes.Database.{World, RedisKeeps, redis_set, redis_delete}
use cache_learning_notes.Store.Answer.{answer}
use cache_learning_notes.Store.Create.{IsUsable, nothing, new_store-IsStore}
use cache_learning_notes.Store.Model.{valid}
use cache_learning_notes.Store.Ops.{Options, new_options, lru, with_defaults}
use cache_learning_notes.Tests.Layers.{a, b, c}
use cache_learning_notes.Tests.Rings.{run, three_each}

-- A client is the address that it was made for; a peer answers with the key.
abbrev pub redis : World Text (List (Text × Text))
redis = record {
  client_get = λ w key. (w, lookup key w);
  client_set = λ w key value expiration. (insert key value w, true);
  client_del = λ w key. (delete key w, true);
  peer_get = λ client w key. (w, some key);
  peer_set = λ client w key value. (w, some value);
  peer_delete = λ client w key. (w, some true);
}

redis-Keeps : RedisKeeps redis
redis-Keeps = record {
  get_set = λ w key value h. lookup-insert key key value w ∙ rw (=?_refl key);
  get_delete = λ w key h. lookup-delete key key w ∙ rw (=?_refl key);
}

abbrev dial : Text → Option Text
dial addr = some addr

abbrev alone : ClientPicker Text
alone = record {
  self_addr = a;
  svc_name = b;
  cons_hash = Map.new_consistent_hash three_each a;
  grpc_cli = [];
  is_cancelled = false;
}

abbrev picker : ClientPicker Text
picker = add_to_ring alone a

alone-HasClients : HasClients alone
unfolding Map.new_consistent_hash
alone-HasClients = empty-HasClients alone refl refl

picker-HasClients : HasClients picker
picker-HasClients = add_self-HasClients alone alone-HasClients

abbrev deliveries : List Delivery
deliveries = batch (was_put b ∷ was_deleted (service_key b c) ∷ []) ∷ channel_closed ∷ []

is_fetched : (fetch_all_services dial (some (c ∷ a ∷ [])) picker).1 ≡ true
unfolding fetch_all_services fetch_each text_beq
is_fetched = refl

start_service_discovery-HasClients_example :
    (p' : ClientPicker Text) × (start_service_discovery dial (some (c ∷ a ∷ [])) deliveries picker
      ≡ ok p')
    × HasClients p'
start_service_discovery-HasClients_example =
    start_service_discovery-HasClients dial (some (c ∷ a ∷ [])) deliveries picker picker-HasClients
      is_fetched

c_is_a_peer : is_peer picker c ≡ true
unfolding text_beq
c_is_a_peer = refl

c_is_new : lookup c picker.cons_hash.node_replicas ≡ none
unfolding run
c_is_new = refl

handle_watch_events-join_example :
    (p' : ClientPicker Text) × (handle_watch_events dial
        (was_put c ∷ was_deleted (service_key b c) ∷ [])
        picker
      ≡ ok p')
    × IsLeft dial picker c p'
handle_watch_events-join_example =
    handle_watch_events-join dial picker c c c_is_a_peer refl picker-HasClients.sorted c_is_new

abbrev options : Options
unfolding new_options
options = record new_options { bucket_count = 2; cap_per_bucket = 2; level2_cap = 2 }

abbrev group : Group
group = new_group b a options lru

usable : IsUsable options
unfolding options
usable = record { buckets = omega arith; level1 = omega arith; level2 = omega arith }

abbrev group-IsGroup : IsGroup group
unfolding new_group with_defaults options
group-IsGroup = record {
  first = 2;
  second = 2;
  view = nothing;
  store = new_store-IsStore lru options usable;
}

abbrev server : Server Text
unfolding new_server register_group_to_server register_peers_to_server
server = register_peers_to_server picker (register_group_to_server group (new_server a b))

abbrev server-IsReady : IsReady server picker group
unfolding server
server-IsReady = record {
  has_picker = refl;
  has_group = refl;
  clients = picker-HasClients;
  group = group-IsGroup;
}

-- The only node owns every key.
own_key : target picker b ≡ some (a, true)
unfolding run successor
own_key = refl

abbrev clock : Clock
clock = record { first = pos 5; second = pos 5; third = pos 5 }

write-get_example :
    ((s' : Server Text) × (s'' : Server Text) × (w'' : List (Text × Text)) × (Handlers.set redis
          server [] b c
        ≡ ok (s', (b, c) ∷ [], some c))
      × (Handlers.get redis s' ((b, c) ∷ []) b clock ≡ ok (s'', w'', some c)))
    × ((s' : Server Text) × (s'' : Server Text) × (w'' : List (Text × Text)) × (Handlers.delete
            redis server [] b
          ≡ ok (s', [], some true))
        × (Handlers.get redis s' [] b clock ≡ ok (s'', w'', none)))
unfolding insert delete redis_set redis_delete
write-get_example =
    write-get redis server picker group [] b a c clock server-IsReady own_key redis-Keeps refl refl

write-StaysReady_example :
    ((s' : Server Text) × (Handlers.set redis server [] b c
        ≡ ok (s', (set_effect redis picker [] b c).0, (set_effect redis picker [] b c).1))
      × StaysReady s')
    × ((s' : Server Text) × (Handlers.delete redis server [] b
          ≡ ok (s', (delete_effect redis picker [] b).0, (delete_effect redis picker [] b).1))
        × StaysReady s')
write-StaysReady_example = write-StaysReady redis server picker group [] b c server-IsReady

-- A new cache holds nothing.
not_nil :
    (v : Value ByteView)
    → cached group server-IsReady.group b (pos 5) (pos 5) ≡ some v
    → (x : ByteView) × (v ≡ some x)
unfolding server-IsReady group-IsGroup answer valid Spec.find
not_nil v h = absurd (ground arith)

get-StaysReady_example :
    (s' : Server Text) × (let e =
        get_at_target redis picker [] b
          (cached group server-IsReady.group b (pos 5) (pos 5))
          (target picker b) in
      Handlers.get redis server [] b clock ≡ ok (s', e.0, e.1))
    × StaysReady s'
get-StaysReady_example = get-StaysReady redis server picker group [] b clock server-IsReady not_nil

-- A node that could not be dialled is in the ring without a client, and a request for its keys panics.
abbrev unreachable : ClientPicker Text
unfolding fetch_all_services fetch_each run
unreachable = (fetch_all_services {C = Text} (λ addr. none) (some (c ∷ [])) alone).0

unreachable_panics :
    Handlers.get redis (register_peers_to_server unreachable server) [] b clock ≡ panic
unfolding run unreachable fetch_all_services fetch_each server register_peers_to_server Handlers.get
    Handlers.get_from Handlers.client route pick_peer
unreachable_panics = refl

-- A follower that takes over a snapshot with a node that it has no client for yet: a request for a key
-- of that node panics.
abbrev overtaken : ClientPicker Text
unfolding run
overtaken = record alone {
  cons_hash =
      update_hash_ring alone.cons_hash
        (some (sync_hash_ring (Map.add (Map.new_consistent_hash three_each c) c)));
}

overtaken_panics : Handlers.get redis (register_peers_to_server overtaken server) [] b clock ≡ panic
unfolding run overtaken update_hash_ring sync_hash_ring carry_owners carried carried_from
    following_bytes lead between server register_peers_to_server Handlers.get Handlers.get_from
    Handlers.client route pick_peer
overtaken_panics = refl

-- A node with an empty address panics when it registers.
no_address_panics :
    register
      record {
        has_client = true;
        interfaces = some (some (record { is_loopback = false; is_ip4 = true; text = a }) ∷ []);
        lease = none;
        was_put = true;
        is_kept_alive = true;
      }
      b
      []
    ≡ panic
unfolding register full_addr get_local_ip first_ip
no_address_panics = refl

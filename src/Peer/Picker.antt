-- ===== src/Peer/Picker.antt =====
-- The type `ClientPicker` of internal/server/peer.go and its methods. `dial` is `grpc.NewClient` with
-- `pb.NewCacheClient`, where `none` is an error; what etcd delivers is an argument. Each method runs
-- alone.
use cache_learning_notes.Base.{
  List, [], ◌∷◌, Option, none, some, Bool, true, false, Text, text_eq, ◌=?◌, ◌&&◌, not, Exec, ok,
  ◌>>=◌, if◌then◌else◌,
}
use cache_learning_notes.Base.Dict.{insert, delete}
use cache_learning_notes.ConHash.Map
use cache_learning_notes.ConHash.Map.{Map, Config, new_consistent_hash}
use cache_learning_notes.Registry.Keys.{service_prefix, trim_prefix}

pub record ClientPicker (C : Type 0) : Type 0 where
  pub self_addr : Text
  pub svc_name : Text
  pub cons_hash : Map
  pub grpc_cli : List (Text × C)
  pub is_cancelled : Bool

-- An event of etcd: the value of a key that was written, or a key that was deleted.
pub data Event : Type 0 where
  was_put : Text → Event
  was_deleted : Text → Event

-- What the loop of `watchServiceChanges` receives: events, the end of the channel, or the end of the
-- picker's context.
pub data Delivery : Type 0 where
  batch : List Event → Delivery
  channel_closed : Delivery
  context_done : Delivery

module _ {C : Type 0} where
  unfoldable pub apply_options :
      List (ClientPicker C → ClientPicker C) → ClientPicker C → ClientPicker C
  apply_options [] picker = picker
  apply_options (opt ∷ opts) picker = apply_options opts (opt picker)

  -- `has_etcd` says whether the client of etcd could be made.
  unfoldable pub new_client_picker :
      Config
      → Text
      → Text
      → Option Map
      → List (ClientPicker C → ClientPicker C)
      → Bool
      → Option (ClientPicker C)
  unfolding apply_options
  new_client_picker config self_addr svc_name cons_hash opts has_etcd =
      let ring : Map = elim cons_hash [
        | none ↦ new_consistent_hash config self_addr
        | some m ↦ m
      ] in
      let picker = apply_options opts record {
        self_addr = self_addr;
        svc_name = svc_name;
        cons_hash = ring;
        grpc_cli = [];
        is_cancelled = false;
      } in
      if has_etcd then some picker else none

  unfoldable pub close : ClientPicker C → ClientPicker C
  close p = record p { is_cancelled = true }

  -- `addr != "" && addr != p.selfAddr`
  abbrev pub is_peer : ClientPicker C → Text → Bool
  is_peer p addr = not (addr =? []) && not (addr =? p.self_addr)

  abbrev pub set_client : ClientPicker C → Text → C → ClientPicker C
  set_client p addr c = record p { grpc_cli = insert addr c p.grpc_cli }

  abbrev pub add_to_ring : ClientPicker C → Text → ClientPicker C
  add_to_ring p addr = record p { cons_hash = Map.add p.cons_hash addr }

  module _ (dial : Text → Option C) where
    -- The loop of `fetchAllServices`; the result says whether the error is nil.
    unfoldable pub fetch_each : List Text → ClientPicker C → ClientPicker C × Bool
    fetch_each [] p = (p, true)
    fetch_each (addr ∷ addrs) p =
        if is_peer p addr
        then elim (dial addr) [
          | none ↦ (add_to_ring p addr, false)
          | some c ↦ fetch_each addrs (set_client (add_to_ring p addr) addr c)
        ]
        else fetch_each addrs p

    unfoldable pub fetch_all_services : Option (List Text) → ClientPicker C → ClientPicker C × Bool
    unfolding fetch_each
    fetch_all_services none p = (p, false)
    fetch_all_services (some addrs) p = fetch_each addrs p

    unfoldable pub handle_event : Event → ClientPicker C → Exec (ClientPicker C)
    handle_event (was_put addr) p =
        if is_peer p addr
        then elim (dial addr) [ none ↦ ok p | some c ↦ ok (add_to_ring (set_client p addr c) addr) ]
        else ok p
    handle_event (was_deleted key) p =
        let addr = trim_prefix key (service_prefix p.svc_name) in
        if is_peer p addr
        then (do
          m ← Map.remove p.cons_hash addr
          ok (record p { grpc_cli = delete addr p.grpc_cli; cons_hash = m }))
        else ok p

    unfoldable pub handle_watch_events : List Event → ClientPicker C → Exec (ClientPicker C)
    unfolding handle_event
    handle_watch_events [] p = ok p
    handle_watch_events (ev ∷ events) p = handle_event ev p >>= handle_watch_events events

    -- With nothing more to receive the loop waits; the picker is as it stands then.
    unfoldable pub watch_service_changes : List Delivery → ClientPicker C → Exec (ClientPicker C)
    unfolding handle_watch_events
    watch_service_changes [] p = ok p
    watch_service_changes (batch events ∷ rest) p =
        handle_watch_events events p >>= watch_service_changes rest
    watch_service_changes (channel_closed ∷ rest) p = ok p
    watch_service_changes (context_done ∷ rest) p = ok p

    unfoldable pub start_service_discovery :
        Option (List Text) → List Delivery → ClientPicker C → Exec (ClientPicker C)
    unfolding fetch_all_services watch_service_changes
    start_service_discovery response deliveries p =
        let r = fetch_all_services response p in
        if r.1 then watch_service_changes deliveries r.0 else ok r.0

  -- The address, whether there is one, and whether it is the own one.
  unfoldable pub pick_peer : ClientPicker C → Text → Exec (ClientPicker C × Text × Bool × Bool)
  pick_peer p key = do
    (m, peer) ← Map.get p.cons_hash key
    let p' = record p { cons_hash = m }
    ok (if peer =? [] then (p', [], false, false) else (p', peer, true, peer =? p.self_addr))

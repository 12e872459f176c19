-- ===== src/Server/Requests.antt =====
-- The requests `Get`, `Set` and `Delete` of internal/server/server.go on a server that is set up: they
-- do not panic, and a key of the node itself is read as it was written.
use cache_learning_notes.Base.{ℕ, ◌≡◌, refl, Option, some, false, Text, text_eq, ok}
use cache_learning_notes.Base.Dict.{lookup}
use cache_learning_notes.Base.Int.{ℤ, pos}
use cache_learning_notes.Layer.Cache.{Value}
use cache_learning_notes.Peer.Picker.{ClientPicker}
use cache_learning_notes.Peer.Watch.{HasClients}
use cache_learning_notes.Server.Handlers.{
  ByteView, Group, Server, route, client, set_to_cache, delete_from_cache,
}
use cache_learning_notes.Server.Route.{
  target, with_load, route_lem, with_load-HasClients, target-client,
}
use cache_learning_notes.Store.Answer.{answer}
use cache_learning_notes.Store.Hash.{bucket_index}
use cache_learning_notes.Store.Model.{valid}
use cache_learning_notes.Store.Invariant.{Views, IsStore}
use cache_learning_notes.Store.Methods.{set_on_store_lem, delete_on_store_lem}
use cache_learning_notes.Store.Ops

-- The cache of a group is well formed.
pub record IsGroup (g : Group) : Type 0 where
  pub first : ℕ
  pub second : ℕ
  pub view : Views ByteView
  pub store : IsStore g.cache first second view

-- A server with a picker and a group.
pub record IsReady {C : Type 0} (s : Server C) (p : ClientPicker C) (g : Group) : Type 0 where
  pub has_picker : s.client_picker ≡ some p
  pub has_group : s.groups ≡ some g
  pub clients : HasClients p
  pub group : IsGroup g

-- What the cache answers for a key at two readings of the clock.
abbrev pub cached : (g : Group) → IsGroup g → Text → ℤ → ℤ → Option (Value ByteView)
cached g h key now now' =
    let i = bucket_index g.cache.mask key in
    answer now now' (valid key (h.view i).0) (valid key (h.view i).1)

-- Ready with some picker and group.
pub record StaysReady {C : Type 0} (s : Server C) : Type 0 where
  pub picker : ClientPicker C
  pub group : Group
  pub ready : IsReady s picker group

pub stays :
    {C : Type 0} {s : Server C} {p : ClientPicker C} {g : Group} → IsReady s p g → StaysReady s
stays {p = p} {g = g} r = record { picker = p; group = g; ready = r }

module _ {C : Type 0} where
  -- A write into the cache.
  pub set_to_cache_lem :
      (s : Server C) (p : ClientPicker C) (g : Group) (key : Text) (v : ByteView) (now : ℤ)
      → IsReady s p g
      → (s' : Server C) × (g' : Group) × (set_to_cache s key v now ≡ ok s') × IsReady s' p g'
  unfolding set_to_cache Ops.set
  set_to_cache_lem s p g key v now r =
      let w =
        set_on_store_lem g.cache r.group.first r.group.second r.group.view r.group.store key
          (some v) (pos 9_999_999_999_999_999) now in
      let g' : Group = record g { cache = w.after } in
      (
        record s { groups = some g' },
        g',
        rw (r.has_group, w.ran),
        record {
          has_picker = r.has_picker;
          has_group = refl;
          clients = r.clients;
          group = record {
            first = r.group.first;
            second = r.group.second;
            view = _;
            store = w.well_formed;
          };
        },
      )

  pub delete_from_cache_lem :
      (s : Server C) (p : ClientPicker C) (g : Group) (key : Text)
      → IsReady s p g
      → (s' : Server C) × (g' : Group) × (delete_from_cache s key ≡ ok s') × IsReady s' p g'
  unfolding delete_from_cache
  delete_from_cache_lem s p g key r =
      let w =
        delete_on_store_lem g.cache r.group.first r.group.second r.group.view r.group.store key in
      let g' : Group = record g { cache = w.after } in
      (
        record s { groups = some g' },
        g',
        rw (r.has_group, w.ran),
        record {
          has_picker = r.has_picker;
          has_group = refl;
          clients = r.clients;
          group = record {
            first = r.group.first;
            second = r.group.second;
            view = _;
            store = w.well_formed;
          };
        },
      )

  pub routed_lem :
      (s : Server C) (p : ClientPicker C) (g : Group) (key : Text)
      → IsReady s p g
      → (n : ℤ) × (route s key
          ≡ ok (record s { client_picker = some (with_load p n) }, target p key))
        × IsReady (record s { client_picker = some (with_load p n) }) (with_load p n) g
  routed_lem s p g key r =
      let (n, ran) = route_lem s p key r.has_picker r.clients.sorted in
      (
        n,
        ran,
        record {
          has_picker = refl;
          has_group = r.has_group;
          clients = with_load-HasClients p n r.clients;
          group = r.group;
        },
      )

  pub client_lem :
      (s : Server C) (p : ClientPicker C) (g : Group) (key peer : Text)
      → IsReady s p g
      → target p key ≡ some (peer, false)
      → (c : C) × (lookup peer p.grpc_cli ≡ some c) × (client s peer ≡ ok c)
  unfolding client
  client_lem s p g key peer r h =
      let (c, has) = target-client p key peer r.clients h in (c, has, rw (r.has_picker, has))

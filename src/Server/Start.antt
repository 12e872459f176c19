-- ===== src/Server/Start.antt =====
-- `NewGroup` and `Start` of internal/server: a server that is started is set up.
use cache_learning_notes.Base.{
  ℕ, ◌≡◌, refl, List, [], ◌∷◌, ◌++◌, some, Bool, true, false, Text, text_eq, ok, inl, inr,
  Bool-cases, Option-cases, ◌==◌,
}
use cache_learning_notes.Peer.Picker.{ClientPicker, add_to_ring}
use cache_learning_notes.Peer.Watch.{add_self-HasClients}
use cache_learning_notes.Registry.Register.{
  Answers, Request, get_local_ip, full_addr, register_lease, register, close,
}
use cache_learning_notes.Server.Handlers
use cache_learning_notes.Server.Handlers.{Group, Server, new_group}
use cache_learning_notes.Server.Requests.{IsGroup, IsReady}
use cache_learning_notes.Store.Create.{IsUsable, new_store-IsStore}
use cache_learning_notes.Store.Ops.{Options, CacheType}

pub new_group-IsGroup :
    (svc_name self_addr : Text) (opts : Options) (cache_type : CacheType)
    → IsUsable opts
    → IsGroup (new_group svc_name self_addr opts cache_type)
unfolding new_group
new_group-IsGroup svc_name self_addr opts cache_type usable = record {
  first = _;
  second = _;
  view = _;
  store = new_store-IsStore cache_type opts usable;
}

-- Registering an address that is not empty does not panic.
pub register_returns :
    (answers : Answers) (svc_name : Text) (x : ℕ) (xs : Text)
    → (r : List Request × Bool) × (register answers svc_name (x ∷ xs) ≡ ok r)
unfolding register full_addr
register_returns answers svc_name x xs = elim (Bool-cases answers.has_client) [
  | inr h ↦ (([], false), rw (register, h))
  | inl h ↦ elim (Option-cases (get_local_ip answers.interfaces)) [
    | inl e ↦ ((close ∷ [], false), rw (register, h, e))
    | inr (ip, e) ↦ elim (Bool-cases (x == b':')) [
      | inl p ↦ (register_lease answers svc_name (ip ++ x ∷ xs), rw (register, h, e, p))
      | inr p ↦ (register_lease answers svc_name (x ∷ xs), rw (register, h, e, p))
    ]
  ]
]

module _ {C : Type 0} where
  pub start-IsReady :
      (answers : Answers) (s : Server C) (p : ClientPicker C) (g : Group) (x : ℕ) (xs : Text)
      → IsReady s p g
      → s.self_addr ≡ x ∷ xs
      → p.self_addr ≡ x ∷ xs
      → (s' : Server C) × (requests : List Request) × (Handlers.start answers true s
          ≡ ok (s', requests, true))
        × IsReady s' (add_to_ring p p.self_addr) g
  unfolding Handlers.start
  start-IsReady answers s p g x xs r same own =
      let (res, ran) = register_returns answers s.svc_name x xs in
      (
        record s { client_picker = some (add_to_ring p p.self_addr); has_grpc_server = true },
        res.0,
        rw (r.has_picker, r.has_group, same, ran, own) (rw r.has_group),
        record {
          has_picker = refl;
          has_group = r.has_group;
          clients = add_self-HasClients p r.clients;
          group = r.group;
        },
      )

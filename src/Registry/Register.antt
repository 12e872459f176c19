-- ===== src/Registry/Register.antt =====
-- `Register`, `getLocalIP` and `PutEtcdConHashNodeCount` of internal/registry/registry.go. What the etcd
-- client and the package net answer is an argument; the requests that go to etcd are listed in order.
use cache_learning_notes.Base.{
  ℕ, suc, ◌>>=◌, List, [], ◌∷◌, ◌++◌, Option, none, some, Bool, true, false, Text, Exec, ok, panic,
  ◌==◌, ◌&&◌, not, if◌then◌else◌,
}
use cache_learning_notes.Base.Int.{ℤ, pos, negsuc}
use cache_learning_notes.ConHash.Map.{digits_before}
use cache_learning_notes.Registry.Keys.{service_key}

-- An address of a network interface: `none` if it is not a `*net.IPNet`.
pub record IpNet : Type 0 where
  pub is_loopback : Bool
  pub is_ip4 : Bool
  pub text : Text

-- `getLocalIP` finds nothing at an error or in the absence of an address.
unfoldable pub first_ip : List (Option IpNet) → Option Text
first_ip [] = none
first_ip (none ∷ addrs) = first_ip addrs
first_ip (some net ∷ addrs) =
    if not net.is_loopback && net.is_ip4 then some net.text else first_ip addrs

unfoldable pub get_local_ip : Option (List (Option IpNet)) → Option Text
unfolding first_ip
get_local_ip none = none
get_local_ip (some addrs) = first_ip addrs

-- How etcd answers: whether a client could be made, the lease, whether the entry was written, and
-- whether the lease is kept alive.
pub record Answers : Type 0 where
  pub has_client : Bool
  pub interfaces : Option (List (Option IpNet))
  pub lease : Option ℕ
  pub was_put : Bool
  pub is_kept_alive : Bool

pub data Request : Type 0 where
  grant : ℕ → Request
  put : Text → Text → ℕ → Request
  keep_alive : ℕ → Request
  close : Request
  revoke : ℕ → Request

-- An address that starts with a colon gets the address of the machine. An empty one panics.
unfoldable pub full_addr : Text → Text → Exec Text
full_addr local_ip [] = panic
full_addr local_ip (x ∷ xs) = if x == b':' then ok (local_ip ++ x ∷ xs) else ok (x ∷ xs)

-- From the lease on. The result says whether the error is nil.
unfoldable pub register_lease : Answers → Text → Text → List Request × Bool
register_lease answers svc_name addr = elim answers.lease [
  | none ↦ (grant 10 ∷ close ∷ [], false)
  | some lease ↦
      let requests = grant 10 ∷ put (service_key svc_name addr) addr lease ∷ [] in
      if not answers.was_put
      then (requests ++ close ∷ [], false)
      else if not answers.is_kept_alive
      then (requests ++ keep_alive lease ∷ close ∷ [], false)
      else (requests ++ keep_alive lease ∷ [], true)
]

unfoldable pub register : Answers → Text → Text → Exec (List Request × Bool)
unfolding get_local_ip full_addr register_lease
register answers svc_name addr =
    if not answers.has_client then ok ([], false) else elim (get_local_ip answers.interfaces) [
      | none ↦ ok (close ∷ [], false)
      | some local_ip ↦ do full ← full_addr local_ip addr; ok (register_lease answers svc_name full)
    ]

-- What the goroutine that looks after a lease receives.
pub data LeaseEvent : Type 0 where
  stop : LeaseEvent
  renewed : LeaseEvent
  channel_closed : LeaseEvent

-- Its requests, up to its return; with nothing more to receive it waits.
unfoldable pub keep_lease : ℕ → List LeaseEvent → List Request
keep_lease lease [] = []
keep_lease lease (stop ∷ events) = revoke lease ∷ close ∷ []
keep_lease lease (renewed ∷ events) = keep_lease lease events
keep_lease lease (channel_closed ∷ events) = close ∷ []

-- `"/conhashNodeCount/"`
abbrev pub counts_prefix : Text
counts_prefix =
    b'/' ∷ b'c' ∷ b'o' ∷ b'n' ∷ b'h' ∷ b'a' ∷ b's' ∷ b'h' ∷ b'N' ∷ b'o' ∷ b'd' ∷ b'e' ∷ b'C' ∷ b'o'
    ∷ b'u' ∷ b'n' ∷ b't' ∷ b'/' ∷ []

-- `fmt.Sprintf("%d", count)`, for an int64.
unfoldable pub decimal : ℤ → Text
decimal (pos n) = digits_before 20 n []
decimal (negsuc n) = b'-' ∷ digits_before 20 (suc n) []

-- The key and the value that `PutEtcdConHashNodeCount` writes.
unfoldable pub put_etcd_con_hash_node_count : Text → ℤ → Text × Text
unfolding decimal
put_etcd_con_hash_node_count addr count = (counts_prefix ++ addr, decimal count)

-- ===== src/Registry/Keys.antt =====
-- The keys of etcd that internal/registry/registry.go, internal/server/peer.go and
-- internal/consistenthash/con_hash.go use, and `strings.TrimPrefix`.
use cache_learning_notes.Base.{
  ◌≡◌, refl, [], ◌∷◌, ◌++◌, Option, none, some, Text, arith, ◌==◌, if◌then◌else◌, ap, sym, ◌∙◌,
}

abbrev pub slash : Text
slash = b'/' ∷ []

abbrev pub services : Text
services = b'/' ∷ b's' ∷ b'e' ∷ b'r' ∷ b'v' ∷ b'i' ∷ b'c' ∷ b'e' ∷ b's' ∷ b'/' ∷ []

-- `"/services/"+p.svcName+"/"`
unfoldable pub service_prefix : Text → Text
service_prefix svc_name = services ++ (svc_name ++ slash)

-- `fmt.Sprintf("/services/%s/%s", svcName, addr)`
unfoldable pub service_key : Text → Text → Text
service_key svc_name addr = services ++ (svc_name ++ (slash ++ addr))

-- What is left of a text behind a prefix that it has.
unfoldable pub strip : Text → Text → Option Text
strip [] s = some s
strip (x ∷ xs) [] = none
strip (x ∷ xs) (y ∷ ys) = if x == y then strip xs ys else none

-- `strings.TrimPrefix`
unfoldable pub trim_prefix : Text → Text → Text
trim_prefix s prefix = elim (strip prefix s) [ none ↦ s | some rest ↦ rest ]

append_assoc : (xs ys zs : Text) → (xs ++ ys) ++ zs ≡ xs ++ (ys ++ zs)
append_assoc [] ys zs = refl
append_assoc (x ∷ xs) ys zs = ap (λ (s : Text). x ∷ s) (append_assoc xs ys zs)

strip-append : (xs ys : Text) → strip xs (xs ++ ys) ≡ some ys
unfolding strip
strip-append [] ys = refl
strip-append (x ∷ xs) ys = ground (arith, strip-append xs ys)

-- The address comes back out of the key under which a node is registered.
pub trim_prefix-service_key :
    (svc_name addr : Text)
    → trim_prefix (service_key svc_name addr) (service_prefix svc_name) ≡ addr
unfolding trim_prefix service_key service_prefix
trim_prefix-service_key svc_name addr =
    let key : service_key svc_name addr ≡ service_prefix svc_name ++ addr =
      ap (λ (s : Text). services ++ s) (sym (append_assoc svc_name slash addr)) in
    ap (λ (s : Text). trim_prefix s (service_prefix svc_name)) key
    ∙ rw (trim_prefix, strip-append (service_prefix svc_name) addr)

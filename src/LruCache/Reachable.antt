-- ===== src/LruCache/Reachable.antt =====
-- The states that the methods of `LruCache` of pkg/store/lru.go reach from `newLRUCache`.
use cache_learning_notes.Base.{
  ℕ, ◌≡◌, List, [], some, Text, text_eq, arith, ok, inl, inr, true, Bool-cases, sym, subst, ◌∙◌,
  ok_eq,
}
use cache_learning_notes.Base.Dict.{lookup}
use cache_learning_notes.Base.Int.{ℤ}
use cache_learning_notes.Layer.Cache.{Calls}
use cache_learning_notes.Store.Ops.{Options}
use cache_learning_notes.LruCache.Cache.{
  LruEntry, LruCache, set, set_with_expiration, get, delete_key, cleanup_expired, close, clear,
  new_lru_cache, is_past,
}
use cache_learning_notes.LruCache.Clean.{Visits, cleanup_expired-Cleaned}
use cache_learning_notes.LruCache.Linked.{empty-Linked}
use cache_learning_notes.LruCache.Model.{IsDated, IsLinked}
use cache_learning_notes.LruCache.Reads.{delete_key-Deleted, get_past, get_fresh}
use cache_learning_notes.LruCache.Writes.{set-Evicted, set_with_expiration-Evicted}

-- A method that returns.
pub data Step {V : Type 0} (size : V → ℕ) (c : LruCache V) : LruCache V → Type 0 where
  sets :
      (key : Text) (v : V) (r : LruCache V × Calls V)
      → set size c key (some v) ≡ ok r
      → Step size c r.0
  sets_with_expiration :
      (key : Text) (v : V) (expiration now : ℤ) (r : LruCache V × Calls V)
      → set_with_expiration size c key (some v) expiration now ≡ ok r
      → Step size c r.0
  gets : (key : Text) (now : ℤ) → Step size c (get size c key now).0
  deletes : (key : Text) → Step size c (delete_key size c key).0
  cleans :
      (visits : List (Text × ℤ)) (now : ℤ)
      → Visits c.expires visits
      → Step size c (cleanup_expired size visits c now).0
  closes : (c' : LruCache V) → close size c ≡ ok c' → Step size c c'
  clears : Step size c (clear size c)

pub data Reachable {V : Type 0} (size : V → ℕ) (opts : Options) : LruCache V → Type 0 where
  created : (unused : ℕ → LruEntry V) → Reachable size opts (new_lru_cache size unused opts)
  stepped : {c c' : LruCache V} → Reachable size opts c → Step size c c' → Reachable size opts c'

empty-IsDated : IsDated [] []
unfolding lookup
empty-IsDated key t h = absurd (ground arith)

-- The invariant.
pub record IsValid {V : Type 0} (c : LruCache V) : Type 0 where
  pub linked : IsLinked c
  pub dated : IsDated c.items c.expires

module _ {V : Type 0} (size : V → ℕ) where
  close-IsValid : (c c' : LruCache V) → close size c ≡ ok c' → IsValid c → IsValid c'
  unfolding close
  close-IsValid c c' h v = elim (Bool-cases c.closed) [
    | inl e ↦ absurd (ground arith)
    | inr e ↦
        let ran : close size c ≡ ok (record c { closed = true }) = rw (close, e) in
        subst (λ (x : LruCache V). IsValid x) (ok_eq (sym ran ∙ h))
          record { linked = v.linked; dated = v.dated }
  ]

  get-IsValid : (c : LruCache V) (key : Text) (now : ℤ) → IsValid c → IsValid (get size c key now).0
  get-IsValid c key now v = elim (Bool-cases (is_past now (lookup key c.expires))) [
    | inl h ↦
        let (d, _, _) = get_past size c key now v.linked v.dated h in
        record { linked = d.linked; dated = d.dated }
    | inr h ↦
        let (l, i, e, _) = get_fresh size c key now v.linked h in
        record { linked = l; dated = rw (i, e) v.dated }
  ]

  pub step-IsValid : (c c' : LruCache V) → Step size c c' → IsValid c → IsValid c'
  unfolding clear
  step-IsValid c _ (sets key w r h) v =
      let (s, ran, e) = set-Evicted size c key w v.linked v.dated in
      let same = ok_eq (sym h ∙ ran) in
      subst (λ (x : LruCache V × Calls V). IsValid x.0) (sym same)
        record { linked = e.linked; dated = e.dated }
  step-IsValid c _ (sets_with_expiration key w t now r h) v =
      let (s, ran, e) = set_with_expiration-Evicted size c key w t now v.linked v.dated in
      let same = ok_eq (sym h ∙ ran) in
      subst (λ (x : LruCache V × Calls V). IsValid x.0) (sym same)
        record { linked = e.linked; dated = e.dated }
  step-IsValid c _ (gets key now) v = get-IsValid c key now v
  step-IsValid c _ (deletes key) v =
      let (d, _, _) = delete_key-Deleted size c key v.linked v.dated in
      record { linked = d.linked; dated = d.dated }
  step-IsValid c _ (cleans visits now w) v =
      let d = cleanup_expired-Cleaned size visits c now v.linked v.dated w in
      record { linked = d.linked; dated = d.dated }
  step-IsValid c c' (closes _ h) v = close-IsValid c c' h v
  step-IsValid c _ clears v = record { linked = empty-Linked c.elems c.next; dated = empty-IsDated }

  -- In every state that Set, SetWithExpiration, Get, Delete, the clean-up, Close and Clear reach from a
  -- new cache, each element stands once in the list, items has exactly the keys of their entries, and
  -- only keys of the cache have an expiration time.
  pub reachable-IsValid : (opts : Options) (c : LruCache V) → Reachable size opts c → IsValid c
  unfolding new_lru_cache
  reachable-IsValid opts _ (created unused) = record {
    linked = empty-Linked unused 0;
    dated = empty-IsDated;
  }
  reachable-IsValid opts c' (stepped {c} r s) = step-IsValid c c' s (reachable-IsValid opts c r)

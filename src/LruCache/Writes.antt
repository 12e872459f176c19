-- ===== src/LruCache/Writes.antt =====
-- `Set` and `SetWithExpiration` of pkg/store/lru.go: they end, keep the invariant, and put the
-- entry to the front of the list before the oldest entries go.
use cache_learning_notes.Base.{
  ℕ, ◌+◌, ◌≡◌, refl, List, ◌∷◌, reverse, none, some, Text, text_eq, sym, subst, Exec, ◌∙◌, ap,
  length, ok, inl, inr, Option-cases,
}
use cache_learning_notes.Base.Dict.{lookup}
use cache_learning_notes.Base.Int.{ℤ, pos, ◌+ℤ◌, ◌-ℤ◌, wrap64}
use cache_learning_notes.Layer.Cache.{Calls}
use cache_learning_notes.LruCache.Cache.{
  LruEntry, LruCache, set_dated, overwrite, push_front, set, date, set_with_expiration,
}
use cache_learning_notes.LruCache.Model.{IsLinked, IsDated, entries, Evicted, like-Evicted}
use cache_learning_notes.LruCache.Linked.{entries-absent, entries-present}
use cache_learning_notes.LruCache.Parts.{
  IsDatedBut, known-IsDated, insert-IsDated, date-IsDatedBut, date_only, overwrite_lem,
  push_front_lem,
}
use cache_learning_notes.LruCache.Spec
use cache_learning_notes.LruCache.Spec.{calls, Trimmed}

module _ {V : Type 0} (size : V → ℕ) where
  -- What `Spec.set` and `Spec.set_with_expiration` give the limit to.
  spec_absent :
      (max used : ℤ) (key : Text) (v : V) (s : List (LruEntry V))
      → (Spec.find key s ≡ none) × (Spec.remove key s ≡ s)
      → (Spec.set size max used key v s
          ≡ Spec.evict size max
              (wrap64 (used +ℤ pos (length key + size v)))
              (reverse (record { key = key; value = v } ∷ s)))
        × (Spec.set_with_expiration size max used key v s
            ≡ Spec.evict size max
                (wrap64 (used +ℤ pos (length key + size v)))
                (reverse (record { key = key; value = v } ∷ s)))
  unfolding Spec.set Spec.written Spec.set_with_expiration
  spec_absent max used key v s (f, m) =
      (rw (Spec.set, Spec.written, f, m), rw (Spec.set_with_expiration, f, m))

  spec_present :
      (max used : ℤ) (key : Text) (v : V) (s s' : List (LruEntry V)) (e : LruEntry V)
      → e.key ≡ key
      → (Spec.find key s ≡ some e) × (Spec.remove key s ≡ s')
      → (Spec.set size max used key v s
          ≡ Spec.evict size max
              (wrap64
                (wrap64 (used -ℤ pos (length key + size e.value)) +ℤ pos (length key + size v)))
              (reverse (record e { value = v } ∷ s')))
        × (Spec.set_with_expiration size max used key v s
            ≡ Spec.evict size max
                (wrap64 (used +ℤ (pos (size v) -ℤ pos (size e.value))))
                (reverse (record e { value = v } ∷ s')))
  unfolding Spec.set Spec.written Spec.set_with_expiration
  spec_present max used key v s s' e k (f, m) =
      (rw (Spec.set, Spec.written, f, m, k), rw (Spec.set_with_expiration, f, m, k))

  set_absent :
      (c : LruCache V) (key : Text) (v : V)
      → lookup key c.items ≡ none
      → (set size c key (some v) ≡ push_front size c key v)
        × (set_dated size c key v ≡ push_front size c key v)
  unfolding set set_dated
  set_absent c key v h = (rw (set, h), rw (set_dated, h))

  set_present :
      (c : LruCache V) (key : Text) (v : V) (i : ℕ)
      → lookup key c.items ≡ some i
      → (set size c key (some v)
          ≡ overwrite size c i v (
              wrap64 (
                wrap64 (c.used_bytes -ℤ pos (length key + size (c.elems i).value))
                +ℤ pos (length key + size v))))
        × (set_dated size c key v
            ≡ overwrite size c i v
                (wrap64 (c.used_bytes +ℤ (pos (size v) -ℤ pos (size (c.elems i).value)))))
  unfolding set set_dated
  set_present c key v i h = (rw (set, h), rw (set_dated, h))

  -- A `Set` or `SetWithExpiration` that runs like `run`, and leaves what `t` tells.
  abbrev Does : LruCache V → Exec (LruCache V × Calls V) → Trimmed V → Type 0
  Does c run t = (r : LruCache V × Calls V) × (run ≡ ok r) × Evicted c t r

  does :
      (c : LruCache V) (run run' : Exec (LruCache V × Calls V)) (t t' : Trimmed V)
      → run' ≡ run
      → t' ≡ t
      → Does c run t
      → Does c run' t'
  does c run run' t t' p q (r, ran, v) =
      (r, p ∙ ran, subst (λ (x : Trimmed V). Evicted c x r) (sym q) v)

  -- Both writes of a key, the dates of the other keys being right.
  both_writes :
      (c : LruCache V) (key : Text) (v : V)
      → IsLinked c
      → IsDatedBut key c.items c.expires
      → Does c (set size c key (some v)) (Spec.set size c.max_bytes c.used_bytes key v (entries c))
        × Does c
            (set_dated size c key v)
            (Spec.set_with_expiration size c.max_bytes c.used_bytes key v (entries c))
  both_writes c key v l d = elim (Option-cases (lookup key c.items)) [
    | inl h ↦
        let (p, q) = set_absent c key v h in
        let (s, t) =
          spec_absent c.max_bytes c.used_bytes key v (entries c) (entries-absent l key h) in
        let done =
          push_front_lem size c key v l h (insert-IsDated key c.next c.items c.expires d) in
        (does c _ _ _ _ p s done, does c _ _ _ _ q t done)
    | inr (i, h) ↦
        let (inside, k) = l.keyed key i h in
        let (p, q) = set_present c key v i h in
        let (s, t) =
          spec_present c.max_bytes c.used_bytes key v (entries c) _ (c.elems i) k
            (entries-present l key i h) in
        let dated = known-IsDated key i c.items c.expires h d in
        (
          does c _ _ _ _ p s (overwrite_lem size c i v _ l dated inside),
          does c _ _ _ _ q t (overwrite_lem size c i v _ l dated inside),
        )
  ]

  pub set-Evicted :
      (c : LruCache V) (key : Text) (value : V)
      → IsLinked c
      → IsDated c.items c.expires
      → (r : LruCache V × Calls V) × (set size c key (some value) ≡ ok r)
        × Evicted c (Spec.set size c.max_bytes c.used_bytes key value (entries c)) r
  set-Evicted c key value l d = (both_writes c key value l (λ k t e _. d k t e)).0

  pub set_with_expiration-Evicted :
      (c : LruCache V) (key : Text) (value : V) (expiration now : ℤ)
      → IsLinked c
      → IsDated c.items c.expires
      → (r : LruCache V × Calls V) × (set_with_expiration size c key (some value) expiration now
          ≡ ok r)
        × Evicted c (Spec.set_with_expiration size c.max_bytes c.used_bytes key value (entries c)) r
  unfolding set_with_expiration
  set_with_expiration-Evicted c key value expiration now l d =
      let c' : LruCache V = record c { expires = (date size c key expiration now).expires } in
      let (r, ran, v) =
        (both_writes c' key value l (date-IsDatedBut size c key expiration now d)).1 in
      let spec = Spec.set_with_expiration size c.max_bytes c.used_bytes key value in
      (
        r,
        ap (λ (x : LruCache V). set_dated size x key value) (date_only size c key expiration now)
            ∙ ran,
        like-Evicted c c' (entries c) (entries c) spec r refl refl refl v,
      )

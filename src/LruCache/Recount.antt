-- ===== src/LruCache/Recount.antt =====
-- `SetWithExpiration` of pkg/store/lru.go against `Set`.
use cache_learning_notes.Base.{
  ℕ, sym, ◌≡◌, refl, none, some, Text, text_eq, ap, length, inl, inr, Option-cases,
}
use cache_learning_notes.Base.Dict.{lookup}
use cache_learning_notes.Base.Int.{ℤ}
use cache_learning_notes.Layer.Cache.{Value}
use cache_learning_notes.LruCache.Cache.{
  LruCache, set, set_dated, set_with_expiration, date, overwrite,
}
use cache_learning_notes.LruCache.Wrap.{recount}

module _ {V : Type 0} (size : V → ℕ) where
  set_dated_lem :
      (c : LruCache V) (key : Text) (v : V) → set_dated size c key v ≡ set size c key (some v)
  unfolding set_dated set
  set_dated_lem c key v = elim (Option-cases (lookup key c.items)) [
    | inl h ↦ rw (set_dated, set, h)
    | inr (i, h) ↦
        rw (set_dated, set, h)
          (ap (overwrite size c i v)
            (sym (recount c.used_bytes (length key) (size v) (size (c.elems i).value))))
  ]

  -- SetWithExpiration is Set after the write or the deletion of the expiration time, for every value,
  -- nil included: the two ways to count the bytes agree, with the wrap of an int64.
  pub set_with_expiration-date :
      (c : LruCache V) (key : Text) (value : Value V) (expiration now : ℤ)
      → set_with_expiration size c key value expiration now
        ≡ set size (date size c key expiration now) key value
  unfolding set_with_expiration set
  set_with_expiration-date c key none expiration now = refl
  set_with_expiration-date c key (some v) expiration now =
      set_dated_lem (date size c key expiration now) key v

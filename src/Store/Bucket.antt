-- ===== src/Store/Bucket.antt =====
-- The methods of `lru2Store` in pkg/store/lru2.go, on the two layers of the bucket that they lock.
-- A method returns the new layers, its result and the calls of `onEvicted` that it made; a read of
-- the clock is an argument.
use cache_learning_notes.Base.{
  ℕ, suc, List, [], ◌∷◌, ◌++◌, Option, none, some, Bool, true, false, ◌&&◌, ◌||◌, not, Text,
  text_eq, ◌=?◌, Exec, ok, ◌>>=◌, at, length, ◌==◌, ltb, if◌then◌else◌,
}
use cache_learning_notes.Base.Dict.{lookup}
use cache_learning_notes.Base.Int.{ℤ, pos, ◌+ℤ◌, wrap64, leb_ℤ}
use cache_learning_notes.Layer.Cache
use cache_learning_notes.Layer.Cache.{Node, Value, Cache, Calls, u16, slot, positive}
use cache_learning_notes.Layer.Links.{prev, link}

-- A `[2]*cache`.
pub record Bucket (V : Type 0) : Type 0 where
  pub level1 : Cache V
  pub level2 : Cache V

-- `currentTime >= expireAt`
abbrev pub past : ℤ → ℤ → Bool
past now expire_at = leb_ℤ expire_at now

-- `expireAt > 0 && currentTime >= expireAt`
abbrev pub expired : ℤ → ℤ → Bool
expired now expire_at = positive expire_at && past now expire_at

unfoldable pub is_some {ℓ} : {A : Type ℓ} → Option A → Bool
is_some none = false
is_some (some _) = true

-- The absolute time at which an entry of this duration expires, an int64.
unfoldable pub expiration_time : ℤ → ℤ → ℤ
expiration_time now expiration = if positive expiration then wrap64 (now +ℤ expiration) else pos 0

unfoldable pub contains : List Text → Text → Bool
contains [] key = false
contains (k ∷ keys) key = key =? k || contains keys key

module _ {V : Type 0} where
  -- The call of `onEvicted` for a node that `del` returned, unless its value is nil.
  abbrev evicted_value : Option (Node V × ℤ) → Value V
  evicted_value none = none
  evicted_value (some (e, _)) = e.v

  -- The callback of `delete`: the value of the first level, or else that of the second.
  unfoldable pub delete_calls : Bool → Text → Option (Node V × ℤ) → Option (Node V × ℤ) → Calls V
  delete_calls has_callback key n₁ n₂ =
      if has_callback
      then elim (evicted_value n₁) [
        | some v ↦ (key, some v) ∷ []
        | none ↦ elim (evicted_value n₂) [ some v ↦ (key, some v) ∷ [] | none ↦ [] ]
      ]
      else []

  unfoldable pub delete : Bool → Bucket V → Text → Exec (Bucket V × Bool × Calls V)
  unfolding is_some
  delete has_callback b key = do
    (c₁, n₁) ← Cache.del b.level1 key
    (c₂, n₂) ← Cache.del b.level2 key
    ok (
      record { level1 = c₁; level2 = c₂ },
      is_some n₁ || is_some n₂,
      delete_calls has_callback key n₁ n₂,
    )

  -- The tests of `_get` on the node that `get` returned.
  unfoldable pub unless_stale : ℤ → Option (Node V) → Option (Node V)
  unless_stale now none = none
  unless_stale now (some e) =
      if not (positive e.expire_at) || past now e.expire_at then none else some e

  -- `_get` at level 1, the second layer, which is the only one that it is called for.
  unfoldable pub get_level2 : Bucket V → Text → ℤ → Exec (Bucket V × Option (Node V))
  unfolding unless_stale
  get_level2 b key now = do
    (c, r) ← Cache.get b.level2 key
    ok (record b { level2 = c }, unless_stale now r)

  -- The end of `Get`, for a node that `_get` returned.
  unfoldable pub get_second :
      Bool → Bucket V → Text → ℤ → Option (Node V) → Exec (Bucket V × Option (Value V) × Calls V)
  get_second has_callback b key now found = elim found [
    | none ↦ ok (b, none, [])
    | some n₂ ↦
        if expired now n₂.expire_at
        then (delete has_callback b key >>= λ d. ok (d.0, none, d.2))
        else ok (b, some n₂.v, [])
  ]

  -- `Get`. `now` is the clock as `Get` reads it, and `now'` as `_get` does.
  unfoldable pub get : Bool → Bucket V → Text → ℤ → ℤ → Exec (Bucket V × Option (Value V) × Calls V)
  unfolding get_second
  get has_callback b key now now' = do
    (c₁, found) ← Cache.del b.level1 key
    let b₁ = record b { level1 = c₁ }
    elim found [
      | some (n₁, expire_at) ↦
          if expired now expire_at
          then (delete has_callback b₁ key >>= λ r. ok (r.0, none, r.2))
          else (Cache.put b₁.level2 key n₁.v expire_at has_callback >>= λ r.
              ok (record b₁ { level2 = r.0 }, some n₁.v, r.2))
      | none ↦ get_level2 b₁ key now' >>= λ r. get_second has_callback r.0 key now r.1
    ]

  -- The copy of the first layer's tail that `SetWithExpiration` makes, if the write will displace it.
  unfoldable pub displaced : Cache V → Text → Exec (Option (Node V))
  displaced c key = elim (lookup key c.hmap) [
    | some _ ↦ ok none
    | none ↦
        if c.last == u16 (length c.m)
        then (link c.dlnk 0 prev >>= λ i.
            if ltb 0 i
            then (at c.m (slot i) >>= λ e. ok (if positive e.expire_at then some e else none))
            else ok none)
        else ok none
  ]

  unfoldable pub set_with_expiration :
      Bool → Bucket V → Text → Value V → ℤ → Exec (Bucket V × Calls V)
  set_with_expiration has_callback b key value expire_at = do
    evicted ← displaced b.level1 key
    (c₁, _, _) ← Cache.put b.level1 key value expire_at false
    elim evicted [
      | none ↦ ok (record b { level1 = c₁ }, [])
      | some e ↦ Cache.put b.level2 e.k e.v e.expire_at has_callback >>= λ r.
          ok (record { level1 = c₁; level2 = r.0 }, r.2)
    ]

  -- The walker of `Clear` and of the clean-up for the first layer: it collects the key of each node
  -- that the test accepts.
  abbrev pub collect : (ℤ → Bool) → List Text → Node V → List Text × Bool
  collect test keys e = (if test e.expire_at then keys ++ e.k ∷ [] else keys, true)

  -- For the second layer: a key that is there already is not collected again.
  abbrev pub collect_new : (ℤ → Bool) → List Text → Node V → List Text × Bool
  collect_new test keys e =
      (if test e.expire_at && not (contains keys e.k) then keys ++ e.k ∷ [] else keys, true)

  unfoldable pub collect_keys : (ℤ → Bool) → Bucket V → List Text → Exec (List Text)
  unfolding contains
  collect_keys test b keys =
      Cache.walk b.level1 (collect test) keys >>= Cache.walk b.level2 (collect_new test)

  unfoldable pub delete_all : Bool → Bucket V → List Text → Exec (Bucket V × Calls V)
  delete_all has_callback b [] = ok (b, [])
  delete_all has_callback b (key ∷ keys) = do
    (b₁, _, calls) ← delete has_callback b key
    (b₂, calls') ← delete_all has_callback b₁ keys
    ok (b₂, calls ++ calls')

  -- One bucket's turn in `cleanupLoop`.
  unfoldable pub clean_up : Bool → Bucket V → ℤ → Exec (Bucket V × Calls V)
  unfolding delete_all collect_keys
  clean_up has_callback b now = do
    keys ← collect_keys (expired now) b []
    delete_all has_callback b keys

  -- One bucket's part of `Len`, added to the count so far.
  unfoldable pub count_live : Bucket V → ℕ → Exec ℕ
  count_live b n = do
    n₁ ← Cache.walk b.level1 (λ k _. (suc k, true)) n
    Cache.walk b.level2 (λ k _. (suc k, true)) n₁

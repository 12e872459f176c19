-- ===== src/LruCache/Cache.antt =====
-- The types `LruCache` and `lruEntry` of pkg/store/lru.go and their methods. A `*list.Element` is a
-- number, `elems` says what it points at, and `list` has the elements of the list, the front
-- first. A `time.Time` is a number of nanoseconds. A method holds the mutex and is one step;
-- `Get`, which takes it several times, runs without another method in between.
use cache_learning_notes.Base.{
  ℕ, zero, suc, ◌+◌, List, [], ◌∷◌, ◌++◌, Option, none, some, Bool, true, false, ◌&&◌, Text,
  text_eq, Exec, ok, panic, no_fuel, ◌>>=◌, length, count, ltb, ◌==◌, if◌then◌else◌,
}
use cache_learning_notes.Base.Dict.{lookup, insert, delete}
use cache_learning_notes.Base.Int.{ℤ, pos, ◌+ℤ◌, ◌-ℤ◌, wrap64, ltb_ℤ}
use cache_learning_notes.Layer.Cache.{Value, Calls, positive}
use cache_learning_notes.Store.Ops.{Options, minute}

pub record LruEntry (V : Type 0) : Type 0 where
  pub key : Text
  pub value : V

-- A write of the nil interface panics in `Len`, after it has changed the list. A run ends with its
-- first panic here, so that no entry with nil is ever in a state.
pub record LruCache (V : Type 0) : Type 0 where
  pub list : List ℕ
  pub elems : ℕ → LruEntry V
  pub next : ℕ
  pub items : List (Text × ℕ)
  pub expires : List (Text × ℤ)
  pub max_bytes : ℤ
  pub used_bytes : ℤ
  pub has_callback : Bool
  pub cleanup_interval : ℤ
  pub closed : Bool

-- `list.Remove` and `list.MoveToFront` do nothing to an element that is not in the list.
unfoldable pub erase : ℕ → List ℕ → List ℕ
erase i [] = []
erase i (x ∷ xs) = if i == x then xs else x ∷ erase i xs

unfoldable pub move_to_front : ℕ → List ℕ → List ℕ
unfolding erase
move_to_front i xs = if ltb 0 (count i xs) then i ∷ erase i xs else xs

-- `list.Back`
unfoldable pub back : List ℕ → Option ℕ
back [] = none
back (x ∷ xs) = elim (back xs) [ none ↦ some x | some y ↦ some y ]

abbrev pub point_at : {A : Type 0} → ℕ → A → (ℕ → A) → ℕ → A
point_at i a f j = if i == j then a else f j

-- `hasExp && time.Now().After(expTime)`
abbrev pub is_past : ℤ → Option ℤ → Bool
is_past now none = false
is_past now (some exp_time) = ltb_ℤ exp_time now

-- What the loop of `cleanupLoop` receives: a tick, with the expiration times in the order in which they
-- are visited and the reading of the clock, or the signal to close.
pub data Signal : Type 0 where
  tick : List (Text × ℤ) → ℤ → Signal
  close_signal : Signal

-- `size` is the method `Len` of a value that is not nil, a number of bytes.
module _ {V : Type 0} (size : V → ℕ) where
  -- `int64(len(e.key) + e.value.Len())`
  abbrev pub entry_size : LruEntry V → ℕ
  entry_size e = length e.key + size e.value

  unfoldable pub new_lru_cache : (ℕ → LruEntry V) → Options → LruCache V
  new_lru_cache unused opts = record {
    list = [];
    elems = unused;
    next = 0;
    items = [];
    expires = [];
    max_bytes = opts.max_bytes;
    used_bytes = pos 0;
    has_callback = opts.on_evicted;
    cleanup_interval = if positive opts.cleanup_interval then opts.cleanup_interval else minute;
    closed = false;
  }

  unfoldable pub remove_element : LruCache V → ℕ → LruCache V × Calls V
  remove_element c elem =
      let e = c.elems elem in
      (
        record c {
          list = erase elem c.list;
          items = delete e.key c.items;
          expires = delete e.key c.expires;
          used_bytes = wrap64 (c.used_bytes -ℤ pos (entry_size e));
        },
        if c.has_callback then (e.key, some e.value) ∷ [] else [],
      )

  -- The body of the loop of `evict`, for the element at the back.
  unfoldable pub evict_back : LruCache V → ℕ → LruCache V × Calls V
  evict_back c elem =
      remove_element
        (record c { used_bytes = wrap64 (c.used_bytes -ℤ pos (entry_size (c.elems elem))) }) elem

  -- The test of the loop.
  abbrev pub over : LruCache V → Bool
  over c = ltb_ℤ c.max_bytes c.used_bytes && ltb 0 (length c.list)

  unfoldable pub evict_loop : ℕ → LruCache V → Exec (LruCache V × Calls V)
  unfolding evict_back
  evict_loop zero c = if over c then no_fuel else ok (c, [])
  evict_loop (suc fuel) c = elim (over c) [
    | false ↦ ok (c, [])
    | true ↦ elim (back c.list) [
      | none ↦ evict_loop fuel c
      | some elem ↦
          evict_loop fuel (evict_back c elem).0 >>= λ r. ok (r.0, (evict_back c elem).1 ++ r.1)
    ]
  ]

  -- Each round takes an element out of the list.
  unfoldable pub evict : LruCache V → Exec (LruCache V × Calls V)
  unfolding evict_loop
  evict c = if ltb_ℤ (pos 0) c.max_bytes then evict_loop (length c.list) c else ok (c, [])

  -- The end of `Set` and `SetWithExpiration` for a key that has an element.
  unfoldable pub overwrite : LruCache V → ℕ → V → ℤ → Exec (LruCache V × Calls V)
  unfolding move_to_front
  overwrite c elem value used = evict (record c {
    used_bytes = used;
    elems = point_at elem (record (c.elems elem) { value = value }) c.elems;
    list = move_to_front elem c.list;
  })

  -- For a key that has none.
  unfoldable pub push_front : LruCache V → Text → V → Exec (LruCache V × Calls V)
  push_front c key value =
      let e : LruEntry V = record { key = key; value = value } in
      evict (record c {
        list = c.next ∷ c.list;
        elems = point_at c.next e c.elems;
        next = suc c.next;
        items = insert key c.next c.items;
        used_bytes = wrap64 (c.used_bytes +ℤ pos (entry_size e));
      })

  unfoldable pub set : LruCache V → Text → Value V → Exec (LruCache V × Calls V)
  unfolding overwrite push_front
  set c key none = panic
  set c key (some value) = elim (lookup key c.items) [
    | some elem ↦
        let less = wrap64 (c.used_bytes -ℤ pos (length key + size (c.elems elem).value)) in
        overwrite c elem value (wrap64 (less +ℤ pos (length key + size value)))
    | none ↦ push_front c key value
  ]

  -- The writes of the expiration time.
  unfoldable pub date : LruCache V → Text → ℤ → ℤ → LruCache V
  date c key expiration now =
      if positive expiration
      then record c { expires = insert key (now +ℤ expiration) c.expires }
      else record c { expires = delete key c.expires }

  -- `SetWithExpiration` after the writes of the expiration time.
  unfoldable pub set_dated : LruCache V → Text → V → Exec (LruCache V × Calls V)
  unfolding overwrite push_front
  set_dated c key value = elim (lookup key c.items) [
    | some elem ↦
        overwrite c elem value
          (wrap64 (c.used_bytes +ℤ (pos (size value) -ℤ pos (size (c.elems elem).value))))
    | none ↦ push_front c key value
  ]

  unfoldable pub set_with_expiration :
      LruCache V → Text → Value V → ℤ → ℤ → Exec (LruCache V × Calls V)
  unfolding set_dated date
  set_with_expiration c key none expiration now = panic
  set_with_expiration c key (some value) expiration now =
      set_dated (date c key expiration now) key value

  unfoldable pub delete_key : LruCache V → Text → LruCache V × Bool × Calls V
  unfolding remove_element
  delete_key c key = elim (lookup key c.items) [
    | none ↦ (c, false, [])
    | some elem ↦ ((remove_element c elem).0, true, (remove_element c elem).1)
  ]

  unfoldable pub get : LruCache V → Text → ℤ → LruCache V × Option V × Calls V
  unfolding delete_key move_to_front
  get c key now = elim (lookup key c.items) [
    | none ↦ (c, none, [])
    | some elem ↦
        if is_past now (lookup key c.expires)
        then (let d = delete_key c key in (d.0, none, d.2))
        else (record c { list = move_to_front elem c.list }, some (c.elems elem).value, [])
  ]

  -- `visits` are the entries of `expires`, in the order of the range loop, which Go leaves open.
  unfoldable pub cleanup_expired : List (Text × ℤ) → LruCache V → ℤ → LruCache V × Calls V
  cleanup_expired [] c now = (c, [])
  cleanup_expired ((key, exp_time) ∷ visits) c now =
      let d = if ltb_ℤ exp_time now then delete_key c key else (c, false, []) in
      let r = cleanup_expired visits d.0 now in (r.0, d.2 ++ r.1)

  -- With nothing more to receive the loop waits.
  unfoldable pub cleanup_loop : List Signal → LruCache V → LruCache V × Calls V
  unfolding cleanup_expired
  cleanup_loop [] c = (c, [])
  cleanup_loop (tick visits now ∷ signals) c =
      let d = cleanup_expired visits c now in let r = cleanup_loop signals d.0 in (r.0, d.1 ++ r.1)
  cleanup_loop (close_signal ∷ signals) c = (c, [])

  unfoldable pub close : LruCache V → Exec (LruCache V)
  close c = if c.closed then panic else ok (record c { closed = true })

  unfoldable pub len : LruCache V → ℕ
  len c = length c.list

  unfoldable pub clear : LruCache V → LruCache V
  clear c = record c { list = []; items = []; expires = []; used_bytes = pos 0 }

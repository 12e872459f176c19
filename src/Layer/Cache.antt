-- ===== src/Layer/Cache.antt =====
-- The types `node` and `cache` of pkg/store/lru2.go and the methods of `cache`. A method runs to
-- `ok`, or panics where Go would: an index out of range. Node numbers are uint16 and wrap.
use cache_learning_notes.Base.{
  ℕ, zero, suc, ◌+◌, ◌%◌, ◌^◌, List, [], ◌∷◌, Option, none, some, Bool, ◌&&◌, Text, text_eq, Exec,
  ok, no_fuel, ◌>>=◌, at, write, length, replicate, ◌==◌, if◌then◌else◌,
}
use cache_learning_notes.Base.Dict.{lookup, insert, delete}
use cache_learning_notes.Base.Int.{ℤ, pos, ltb_ℤ}
use cache_learning_notes.Layer.Links.{Side, prev, next, Link, link, set_link, adjust_links}

-- The interface `Value`: `none` is the nil interface, which a node holds before its first use.
abbrev pub Value : Type 0 → Type 0
Value V = Option V

pub record Node (V : Type 0) : Type 0 where
  pub k : Text
  pub v : Value V
  pub expire_at : ℤ

pub record Cache (V : Type 0) : Type 0 where
  pub dlnk : List Link
  pub m : List (Node V)
  pub hmap : List (Text × ℕ)
  pub last : ℕ

-- The calls of `onEvicted` that a method makes, in order.
abbrev pub Calls : Type 0 → Type 0
Calls V = List (Text × Value V)

abbrev pub u16 : ℕ → ℕ
u16 n = n % 2 ^ 16

-- `idx-1` on a uint16.
abbrev pub slot : ℕ → ℕ
slot idx = u16 (idx + 65535)

-- `expireAt > 0`
unfoldable pub positive : ℤ → Bool
positive e = ltb_ℤ (pos 0) e

module _ {V : Type 0} where
  abbrev pub zero_node : Node V
  zero_node = record { k = []; v = none; expire_at = pos 0 }

  unfoldable pub create : ℕ → Cache V
  create cap = record {
    dlnk = replicate (u16 (cap + 1)) (record { p = 0; n = 0 });
    m = replicate cap zero_node;
    hmap = [];
    last = 0;
  }

  unfoldable pub adjust : Cache V → ℕ → Side → Side → Exec (Cache V)
  adjust c idx f t = do d ← adjust_links c.dlnk idx f t; ok (record c { dlnk = d })

  -- `put`, for a key that has a node.
  unfoldable pub put_known : Cache V → ℕ → Value V → ℤ → Exec (Cache V × ℕ × Calls V)
  put_known c idx val expire_at = do
    e ← at c.m (slot idx)
    m' ← write c.m (slot idx) (record e { v = val; expire_at = expire_at })
    c' ← adjust (record c { m = m' }) idx prev next
    ok (c', 0, [])

  -- `put`, for a new key in a full layer: the tail's slot is used again.
  unfoldable pub put_full : Cache V → Text → Value V → ℤ → Bool → Exec (Cache V × ℕ × Calls V)
  put_full c key val expire_at has_callback = do
    i ← link c.dlnk 0 prev
    tail ← at c.m (slot i)
    m' ← write c.m (slot i) (record { k = key; v = val; expire_at = expire_at })
    c' ← adjust (record c { m = m'; hmap = insert key i (delete tail.k c.hmap) }) i prev next
    ok (c', 1, if has_callback && positive tail.expire_at then (tail.k, tail.v) ∷ [] else [])

  -- `put`, for a new key in a layer that has room: a new node goes to the head.
  unfoldable pub put_new : Cache V → Text → Value V → ℤ → Exec (Cache V × ℕ × Calls V)
  put_new c key val expire_at = do
    let last = u16 (c.last + 1)
    h ← link c.dlnk 0 next
    d₁ ← set_link c.dlnk (if length c.hmap == 0 then 0 else h) prev last
    m' ← write c.m (slot last) (record { k = key; v = val; expire_at = expire_at })
    h' ← link d₁ 0 next
    d₂ ← write d₁ last (record { p = 0; n = h' })
    d₃ ← set_link d₂ 0 next last
    ok (record { dlnk = d₃; m = m'; hmap = insert key last c.hmap; last = last }, 1, [])

  unfoldable pub put : Cache V → Text → Value V → ℤ → Bool → Exec (Cache V × ℕ × Calls V)
  put c key val expire_at has_callback = elim (lookup key c.hmap) [
    | some idx ↦ put_known c idx val expire_at
    | none ↦
        if c.last == u16 (length c.m)
        then put_full c key val expire_at has_callback
        else put_new c key val expire_at
  ]

  -- The node is what the returned pointer shows; the int status is 1 exactly for `some`.
  unfoldable pub get : Cache V → Text → Exec (Cache V × Option (Node V))
  get c key = elim (lookup key c.hmap) [
    | none ↦ ok (c, none)
    | some idx ↦ do c' ← adjust c idx prev next; e ← at c'.m (slot idx); ok (c', some e)
  ]

  -- With the node as it is after the call, and the `expireAt` from before it.
  unfoldable pub del : Cache V → Text → Exec (Cache V × Option (Node V × ℤ))
  del c key = elim (lookup key c.hmap) [
    | none ↦ ok (c, none)
    | some idx ↦ do
      e ← at c.m (slot idx)
      if positive e.expire_at
          then (do
            m' ← write c.m (slot idx) (record e { expire_at = pos 0 })
            c' ← adjust (record c { m = m' }) idx next prev
            e' ← at c'.m (slot idx)
            ok (c', some (e', e.expire_at)))
          else ok (c, none)
  ]

  -- The loop of `walk`, from node `idx` on. The walker takes the variables that it captures, and
  -- returns them with its result; the loop's value is theirs at the end.
  unfoldable pub walk_from {ℓ} :
      {S : Type ℓ} → ℕ → Cache V → ℕ → (S → Node V → S × Bool) → S → Exec S
  walk_from zero c idx walker s = no_fuel
  walk_from {S = S} (suc fuel) c idx walker s =
      let continue = λ (s' : S). link c.dlnk idx next >>= λ i. walk_from fuel c i walker s' in
      let visit = λ (e : Node V).
        (if positive (e.expire_at)
          then (if (walker s e).1 then continue (walker s e).0 else ok (walker s e).0)
          else continue s) in
      if idx == 0 then ok s else (at c.m (slot idx) >>= visit)

  unfoldable pub walk {ℓ} : {S : Type ℓ} → Cache V → (S → Node V → S × Bool) → S → Exec S
  unfolding walk_from
  walk c walker s = do i ← link c.dlnk 0 next; walk_from (length c.dlnk) c i walker s

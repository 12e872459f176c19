-- ===== src/Layer/Spec.antt =====
-- What a layer of pkg/store/lru2.go promises: a list of nodes, the most recently used first, with at
-- most one node for each key. A deleted node stays, at the end, until its place is needed.
use cache_learning_notes.Base.{
  true, false, arith, ◌≡◌, ◌≢◌, ==_ne, ℕ, List, [], ◌∷◌, ◌++◌, Option, none, some, Bool, ◌&&◌, Text,
  text_eq, ◌=?◌, length, ◌==◌, if◌then◌else◌,
}
use cache_learning_notes.Base.Int.{ℤ, pos}
use cache_learning_notes.Layer.Cache.{Node, Value, Calls, positive}

module _ {ℓ} {A : Type ℓ} where
  -- All but the last element, and the last.
  unfoldable pub pop_back : List A → Option (List A × A)
  pop_back [] = none
  pop_back (x ∷ xs) = elim (pop_back xs) [
    | none ↦ some ([], x)
    | some (rest, last) ↦ some (x ∷ rest, last)
  ]

module _ {V : Type 0} where
  unfoldable pub find : Text → List (Node V) → Option (Node V)
  find key [] = none
  find key (e ∷ s) = if e.k =? key then some e else find key s

  unfoldable pub remove : Text → List (Node V) → List (Node V)
  remove key [] = []
  remove key (e ∷ s) = if e.k =? key then s else e ∷ remove key s

  abbrev pub evictions : Bool → Node V → Calls V
  evictions has_callback e = if has_callback && positive e.expire_at then (e.k, e.v) ∷ [] else []

  -- The least recently used node makes room.
  abbrev pub replace_last : Node V → Bool → List (Node V) → List (Node V) × ℕ × Calls V
  replace_last e has_callback s = elim (pop_back s) [
    | none ↦ (e ∷ [], 1, [])
    | some (rest, tail) ↦ (e ∷ rest, 1, evictions has_callback tail)
  ]

  unfoldable pub put : ℕ → Text → Value V → ℤ → Bool → List (Node V) → List (Node V) × ℕ × Calls V
  put cap key val expire_at has_callback s =
      let e : Node V = record { k = key; v = val; expire_at = expire_at } in
      elim (find key s) [
        | some _ ↦ (e ∷ remove key s, 0, [])
        | none ↦ if length s == cap then replace_last e has_callback s else (e ∷ s, 1, [])
      ]

  unfoldable pub get : Text → List (Node V) → List (Node V) × Option (Node V)
  get key s = elim (find key s) [ some e ↦ (e ∷ remove key s, some e) | none ↦ (s, none) ]

  unfoldable pub del : Text → List (Node V) → List (Node V) × Option (Node V × ℤ)
  del key s = elim (find key s) [
    | some e ↦
        let dead : Node V = record e { expire_at = pos 0 } in
        if positive e.expire_at
        then (remove key s ++ dead ∷ [], some (dead, e.expire_at))
        else (s, none)
    | none ↦ (s, none)
  ]

  -- The nodes that are valid, in order.
  unfoldable pub live : List (Node V) → List (Node V)
  live [] = []
  live (e ∷ s) = let rest = live s in if positive e.expire_at then e ∷ rest else rest

  -- A walker is called on each node in turn, until it returns false.
  unfoldable pub fold {ℓ} : {S : Type ℓ} → (S → Node V → S × Bool) → S → List (Node V) → S
  fold walker s [] = s
  fold walker s (e ∷ es) =
      let rest = fold walker (walker s e).0 es in if (walker s e).1 then rest else (walker s e).0

  module _ (size : ℕ) (key : Text) (val : Value V) (e : ℤ) (cb : Bool) (s : List (Node V)) where
    abbrev entry : Node V
    entry = record { k = key; v = val; expire_at = e }

    pub put-known :
        {old : Node V}
        → find key s ≡ some old
        → put size key val e cb s ≡ (entry ∷ remove key s, 0, [])
    unfolding put
    put-known h = rw (h, put)

    pub put-new : find key s ≡ none → length s ≢ size → put size key val e cb s ≡ (entry ∷ s, 1, [])
    unfolding put
    put-new h apart = rw (h, put, ==_ne (length s) size apart)

    pub put-full :
        {rest : List (Node V)} {tail : Node V}
        → find key s ≡ none
        → length s ≡ size
        → pop_back s ≡ some (rest, tail)
        → put size key val e cb s ≡ (entry ∷ rest, 1, evictions cb tail)
    unfolding put
    put-full h full last = ground arith

  module _ (key : Text) (s : List (Node V)) where
    pub get-known : {e : Node V} → find key s ≡ some e → get key s ≡ (e ∷ remove key s, some e)
    unfolding get
    get-known h = rw (h, get)

    pub get-unknown : find key s ≡ none → get key s ≡ (s, none)
    unfolding get
    get-unknown h = rw (h, get)

    pub del-alive :
        {e : Node V}
        → find key s ≡ some e
        → positive e.expire_at ≡ true
        → let dead : Node V = record e { expire_at = pos 0 } in
          del key s ≡ (remove key s ++ dead ∷ [], some (dead, e.expire_at))
    unfolding del
    del-alive h alive = rw (h, del, alive)

    pub del-dead :
        {e : Node V} → find key s ≡ some e → positive e.expire_at ≡ false → del key s ≡ (s, none)
    unfolding del
    del-dead h gone = rw (h, del, gone)

    pub del-unknown : find key s ≡ none → del key s ≡ (s, none)
    unfolding del
    del-unknown h = rw (h, del)

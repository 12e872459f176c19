-- ===== src/Layer/Reads.antt =====
-- What can be read from a layer of pkg/store/lru2.go after a write: for each key, the node that the
-- list of nodes holds for it.
use cache_learning_notes.Base.{
  ℕ, ◌≤◌, ◌<◌, ◌≡◌, ◌≢◌, refl, sym, ap, ◌∙◌, subst, inl, inr, List, [], ◌∷◌, ◌++◌, map, Option,
  none, some, Bool, false, Text, text_eq, ◌=?◌, =?_refl, =?_eq, =?_ne, arith, some_eq, length, ◌==◌,
  if◌then◌else◌, Bool-cases, Option-cases, hit, count, hit_self,
}
use mathlib.Core.Option
use cache_learning_notes.Base.Dict.{lookup}
use cache_learning_notes.Base.Int.{ℤ, pos}
use cache_learning_notes.Layer.Cache.{Node, Value, Cache, positive}
use cache_learning_notes.Layer.Model.{node, Models, find-none, split_last, pop_back-append}
use cache_learning_notes.Layer.Spec
use cache_learning_notes.Layer.Spec.{pop_back, find, remove}

-- No two nodes have the same key.
abbrev pub Distinct : {V : Type 0} → List (Node V) → Type 0
Distinct [] = Unit {0}
Distinct (e ∷ s) = (find e.k s ≡ none) × Distinct s

=?_of_ne : (a b : Text) → a ≢ b → (a =? b) ≡ false
=?_of_ne a b h = ground (arith, =?_eq a b)

positive-zero : positive (pos 0) ≡ false
unfolding positive
positive-zero = refl

module _ {V : Type 0} where
  Distinct-view :
      (m : List (Node V)) (hmap : List (Text × ℕ)) (ids : List ℕ)
      → ((i : ℕ) → 0 < count i ids → lookup (node m i).k hmap ≡ some i)
      → ((i : ℕ) → count i ids ≤ 1)
      → Distinct (map (node m) ids)
  unfolding count
  Distinct-view m hmap [] indexed once = tt
  Distinct-view m hmap (i ∷ ids) indexed once =
      let here = indexed i (omega (arith, hit_self i)) in
      (
        find-none m (node m i).k ids (λ j there same.
            let found = indexed j (omega arith) in
            let eq : i ≡ j = some_eq (sym here ∙ ap (λ z. lookup z hmap) (sym same) ∙ found) in
            let twice : 0 < count i ids = subst (λ z. 0 < count z ids) (sym eq) there in
            omega (arith, once i, hit_self i)),
        Distinct-view m hmap ids (λ j c. indexed j (omega arith)) (λ j. omega (arith, once j)),
      )

  -- The nodes of a layer have distinct keys.
  pub Models-Distinct : (c : Cache V) (size : ℕ) (s : List (Node V)) → Models c size s → Distinct s
  Models-Distinct c size s model =
      subst Distinct model.view
        (Distinct-view c.m c.hmap model.ids model.valid.indexed model.valid.order.once)

  pub find-key : (q : Text) (s : List (Node V)) {e : Node V} → find q s ≡ some e → e.k ≡ q
  unfolding find
  find-key q [] h = cc
  find-key q (x ∷ s) {e} h = elim (Bool-cases (x.k =? q)) [
    | inl same ↦ ap Node.k (sym (some_eq (rw same at h))) ∙ =?_eq x.k q same
    | inr other ↦ find-key q s (rw other at h)
  ]

  find-remove_ne : (q key : Text) (s : List (Node V)) → q ≢ key → find q (remove key s) ≡ find q s
  unfolding find remove
  find-remove_ne q key [] h = refl
  find-remove_ne q key (x ∷ s) h =
      ground (arith, find-remove_ne q key s h, =?_eq x.k q, =?_eq x.k key)

  find-remove_self : (key : Text) (s : List (Node V)) → Distinct s → find key (remove key s) ≡ none
  unfolding find remove
  find-remove_self key [] d = refl
  find-remove_self key (x ∷ s) d = elim (Bool-cases (x.k =? key)) [
    | inl same ↦ rw same (ap (λ z. find z s) (sym (=?_eq x.k key same)) ∙ d.0)
    | inr other ↦ rw (other, other) (find-remove_self key s d.1)
  ]

  find-append :
      (q : Text) (s : List (Node V)) (e : Node V) → e.k ≢ q → find q (s ++ e ∷ []) ≡ find q s
  unfolding find
  find-append q [] e h = rw (=?_of_ne e.k q h)
  find-append q (x ∷ s) e h = rw (find-append q s e h)

  pub find-append_last :
      (q : Text) (s : List (Node V)) (e : Node V)
      → find q s ≡ none
      → e.k ≡ q
      → find q (s ++ e ∷ []) ≡ some e
  unfolding find
  find-append_last q [] e h same = ground (arith, =?_refl q)
  find-append_last q (x ∷ s) e h same = elim (Bool-cases (x.k =? q)) [
    | inl hit ↦ cc (rw hit at h)
    | inr miss ↦ rw miss (find-append_last q s e (rw miss at h) same)
  ]

  -- Dropping the last node hides its key alone.
  find-pop_back :
      (q : Text) (s : List (Node V)) {rest : List (Node V)} {tail : Node V}
      → pop_back s ≡ some (rest, tail)
      → tail.k ≢ q
      → find q rest ≡ find q s
  unfolding pop_back
  find-pop_back q [] h apart = cc
  find-pop_back q (x ∷ s) {rest} {tail} h apart =
      let (xs, y, split) = split_last (x ∷ s) (omega arith) in
      let same : some (xs, y) ≡ some (rest, tail) =
        sym (ap pop_back split ∙ pop_back-append xs y) ∙ h in
      let pair : (xs, y) ≡ (rest, tail) = some_eq same in
      let kept : xs ≡ rest = ap (λ z. z.0) pair in
      let last : y ≡ tail = ap (λ z. z.1) pair in
      rw (← kept, split) (sym (find-append q xs y (λ e. apart (ap Node.k (sym last) ∙ e))))

  pop_back-none : (s : List (Node V)) → pop_back s ≡ none → s ≡ []
  unfolding pop_back
  pop_back-none [] h = refl
  pop_back-none (x ∷ s) h =
      let (xs, y, split) = split_last (x ∷ s) (omega arith) in
      let last : Option (List (Node V) × Node V) = some (xs, y) in
      let clash : last ≡ none = sym (ap pop_back split ∙ pop_back-append xs y) ∙ h in cc

  pub find-cons_ne :
      (q : Text) (e : Node V) (s : List (Node V)) → e.k ≢ q → find q (e ∷ s) ≡ find q s
  unfolding find
  find-cons_ne q e s h = rw (=?_of_ne e.k q h)

  find-cons_self : (q : Text) (e : Node V) (s : List (Node V)) → e.k ≡ q → find q (e ∷ s) ≡ some e
  unfolding find
  find-cons_self q e s h = ground (arith, =?_refl q)

  -- The node that a `put` of a new key in a full layer displaces.
  unfoldable pub victim : ℕ → Text → List (Node V) → Option (Node V)
  victim size key s = elim (find key s) [
    | some _ ↦ none
    | none ↦ if length s == size then Option.map (λ r. r.1) (pop_back s) else none
  ]

  module _ (size : ℕ) (key : Text) (val : Value V) (e : ℤ) (cb : Bool) (s : List (Node V)) where
    -- After `put` the key has the node that was written.
    pub find-put_self :
        find key (Spec.put size key val e cb s).0
        ≡ some (record { k = key; v = val; expire_at = e })
    unfolding Spec.put find
    find-put_self = ground (arith, =?_refl key)

    put-empty :
        Spec.put size key val e cb [] ≡ (record { k = key; v = val; expire_at = e } ∷ [], 1, [])
    unfolding Spec.put find pop_back
    put-empty = ground arith

    -- Every other key keeps its node, except that of the displaced one.
    pub find-put_ne :
        (q : Text)
        → q ≢ key
        → ((x : Node V) → victim size key s ≡ some x → x.k ≢ q)
        → find q (Spec.put size key val e cb s).0 ≡ find q s
    unfolding victim
    find-put_ne q apart safe =
        let entry : Node V = record { k = key; v = val; expire_at = e } in
        let skip = λ (t : List (Node V)). find-cons_ne q entry t (λ p. apart (sym p)) in
        elim (Option-cases (find key s)) [
          | inr (old, known) ↦
              rw (Spec.put-known size key val e cb s known)
                (skip (remove key s) ∙ find-remove_ne q key s apart)
          | inl unknown ↦ elim (Bool-cases (length s == size)) [
            | inr room ↦ rw (Spec.put-new size key val e cb s unknown (ground arith)) (skip s)
            | inl full ↦ elim (Option-cases (pop_back s)) [
              | inl empty ↦ rw (pop_back-none s empty) (ap (λ r. find q r.0) put-empty ∙ skip [])
              | inr ((rest, tail), popped) ↦
                  rw (Spec.put-full size key val e cb s unknown (ground arith) popped) (
                    skip rest
                    ∙ find-pop_back q s popped
                        (safe tail (rw (victim, unknown, full, popped) refl)))
            ]
          ]
        ]

  module _ (key : Text) (s : List (Node V)) where
    -- `get` changes no key's node.
    pub find-get : (q : Text) → find q (Spec.get key s).0 ≡ find q s
    find-get q = elim (Option-cases (find key s)) [
      | inl unknown ↦ rw (Spec.get-unknown key s unknown)
      | inr (e, known) ↦ rw (Spec.get-known key s known) (elim (Bool-cases (key =? q)) [
        | inl same ↦
            let eq : key ≡ q = =?_eq key q same in
            find-cons_self q e (remove key s) (find-key key s known ∙ eq)
            ∙ sym known
            ∙ ap (λ z. find z s) eq
        | inr other ↦
            let apart : key ≢ q = =?_ne key q other in
            find-cons_ne q e (remove key s) (λ p. apart (sym (find-key key s known) ∙ p))
            ∙ find-remove_ne q key s (λ p. apart (sym p))
      ])
    ]

    -- After `del` the key has no valid node.
    pub find-del_self :
        Distinct s
        → (e : Node V) → find key (Spec.del key s).0 ≡ some e
        → positive e.expire_at ≡ false
    find-del_self d e found = elim (Option-cases (find key s)) [
      | inl unknown ↦
          let clash : some e ≡ none = sym found ∙ rw (Spec.del-unknown key s unknown) unknown in cc
      | inr (x, known) ↦ elim (Bool-cases (positive x.expire_at)) [
        | inr gone ↦
            let same : x ≡ e = some_eq (sym known ∙ rw (Spec.del-dead key s known gone) at found) in
            rw (← same) gone
        | inl alive ↦
            let dead : Node V = record x { expire_at = pos 0 } in
            let last =
              find-append_last key (remove key s) dead (find-remove_self key s d)
                (find-key key s known) in
            let same : dead ≡ e =
              some_eq (sym last ∙ rw (Spec.del-alive key s known alive) at found) in
            rw (← same) positive-zero
      ]
    ]

    pub find-del_ne : (q : Text) → q ≢ key → find q (Spec.del key s).0 ≡ find q s
    find-del_ne q apart = elim (Option-cases (find key s)) [
      | inl unknown ↦ rw (Spec.del-unknown key s unknown)
      | inr (x, known) ↦ elim (Bool-cases (positive x.expire_at)) [
        | inr gone ↦ rw (Spec.del-dead key s known gone)
        | inl alive ↦
            let dead : Node V = record x { expire_at = pos 0 } in
            rw (Spec.del-alive key s known alive) (
              find-append q (remove key s) dead (λ p. apart (sym p ∙ find-key key s known))
              ∙ find-remove_ne q key s apart)
      ]
    ]

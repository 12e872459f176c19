-- ===== src/Store/Collect.antt =====
-- The keys that the walkers of `Clear` and `cleanupLoop` of pkg/store/lru2.go collect.
use cache_learning_notes.Base.{
  ◌≡◌, refl, sym, ap, ◌∙◌, inl, inr, List, [], ◌∷◌, ◌++◌, Option, none, some, Bool, true, false,
  ◌&&◌, ◌||◌, Text, text_eq, ◌=?◌, =?_refl, =?_eq, =?_ne, arith, Bool-cases,
}
use cache_learning_notes.Base.Int.{ℤ}
use cache_learning_notes.Layer.Cache.{Node, positive}
use cache_learning_notes.Layer.Reads.{Distinct}
use cache_learning_notes.Layer.Spec
use cache_learning_notes.Store.Bucket.{contains, collect, collect_new}
use cache_learning_notes.Store.Model.{if_positive, valid}

contains-append :
    (keys : List Text) (k q : Text) → contains (keys ++ k ∷ []) q ≡ contains keys q || (q =? k)
unfolding contains
contains-append [] k q = ground arith
contains-append (x ∷ keys) k q = ground (arith, contains-append keys k q)

or_assoc : (a b c : Bool) → (a || b) || c ≡ a || (b || c)
or_assoc true b c = refl
or_assoc false b c = refl

neither_lem : (a b : Bool) → (a && false) || b ≡ b
neither_lem true b = refl
neither_lem false b = refl

known_lem :
    (keys : List Text) (k q : Text) (more : Bool)
    → contains keys k ≡ true
    → contains keys q || more ≡ contains keys q || ((q =? k) || more)
known_lem keys k q more known = elim (Bool-cases (q =? k)) [
  | inl same ↦
      let there : contains keys q ≡ true = ap (contains keys) (=?_eq q k same) ∙ known in
      rw there refl
  | inr apart ↦ rw apart refl
]

ne_flip : (a b : Text) → (a =? b) ≡ false → (b =? a) ≡ false
ne_flip a b h = ground (arith, =?_ne a b h, =?_eq b a)

module _ {V : Type 0} (test : ℤ → Bool) where
  -- Whether a list has a valid node of the key that passes the test.
  pub any_passing : Text → List (Node V) → Bool
  any_passing q [] = false
  any_passing q (e ∷ s) =
      ((positive e.expire_at && test e.expire_at) && (q =? e.k)) || any_passing q s

  pub collect_lem :
      (q : Text) (s : List (Node V)) (keys : List Text)
      → contains (Spec.fold (collect test) keys (Spec.live s)) q
        ≡ contains keys q || any_passing q s
  unfolding Spec.fold Spec.live any_passing
  collect_lem q [] keys = ground arith
  collect_lem q (e ∷ s) keys = elim (Bool-cases (positive e.expire_at)) [
    | inr dead ↦ rw dead (collect_lem q s keys)
    | inl alive ↦ elim (Bool-cases (test e.expire_at)) [
      | inr later ↦ rw (alive, later) (collect_lem q s keys)
      | inl gone ↦
          rw (alive, gone)
            (collect_lem q s (keys ++ e.k ∷ [])
              ∙ ap (λ z. z || any_passing q s) (contains-append keys e.k q)
              ∙ or_assoc (contains keys q) (q =? e.k) (any_passing q s))
    ]
  ]

  pub collect_new_lem :
      (q : Text) (s : List (Node V)) (keys : List Text)
      → contains (Spec.fold (collect_new test) keys (Spec.live s)) q
        ≡ contains keys q || any_passing q s
  unfolding Spec.fold Spec.live any_passing
  collect_new_lem q [] keys = ground arith
  collect_new_lem q (e ∷ s) keys = elim (Bool-cases (positive e.expire_at)) [
    | inr dead ↦ rw dead (collect_new_lem q s keys)
    | inl alive ↦ elim (Bool-cases (test e.expire_at)) [
      | inr later ↦ rw (alive, later) (collect_new_lem q s keys)
      | inl gone ↦ elim (Bool-cases (contains keys e.k)) [
        | inr new ↦
            rw (alive, gone, new)
              (collect_new_lem q s (keys ++ e.k ∷ [])
                ∙ ap (λ z. z || any_passing q s) (contains-append keys e.k q)
                ∙ or_assoc (contains keys q) (q =? e.k) (any_passing q s))
        | inl known ↦
            rw (alive, gone, known) (collect_new_lem q s keys ∙ known_lem keys e.k q _ known)
      ]
    ]
  ]

  -- Whether an entry passes the test.
  abbrev pub passes : Option (Node V) → Bool
  passes none = false
  passes (some e) = test e.expire_at

  both_lem :
      (e : Node V)
      → ((positive e.expire_at && test e.expire_at) && true) || false
        ≡ passes (if_positive (some e))
  both_lem e = ground arith

  here_lem :
      (e : Node V) (q : Text)
      → e.k ≡ q
      → ((positive e.expire_at && test e.expire_at) && (q =? e.k)) || false
        ≡ passes (if_positive (some e))
  here_lem e q named =
      let same : (q =? e.k) ≡ true = ap (λ z. q =? z) named ∙ =?_refl q in rw same (both_lem e)

  pub any_passing-passes :
      (q : Text) (s : List (Node V)) → Distinct s → any_passing q s ≡ passes (valid q s)
  unfolding any_passing valid Spec.find
  any_passing-passes q [] d = refl
  any_passing-passes q (e ∷ s) d = elim (Bool-cases (e.k =? q)) [
    | inl same ↦
        let named : e.k ≡ q = =?_eq e.k q same in
        let rest : any_passing q s ≡ false =
          any_passing-passes q s d.1
          ∙ ap (λ z. passes (if_positive (Spec.find z s))) (sym named)
          ∙ ap (λ z. passes (if_positive z)) d.0 in
        rw (same, rest) (here_lem e q named)
    | inr apart ↦
        rw (apart, ne_flip e.k q apart)
          (neither_lem (positive e.expire_at && test e.expire_at) (any_passing q s)
            ∙ any_passing-passes q s d.1)
  ]

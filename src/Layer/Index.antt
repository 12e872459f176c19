-- ===== src/Layer/Index.antt =====
-- The map `hmap` of pkg/store/lru2.go as an index of the nodes by key: inserting a key and deleting
-- one keep it in step with the list of node numbers.
use cache_learning_notes.Base.{
  ℕ, ◌-◌, ◌≤◌, ◌<◌, ◌≡◌, ◌≢◌, sym, ap, ◌∙◌, subst, inl, inr, List, ◌∷◌, ◌++◌, none, some, Text,
  text_eq, ◌=?◌, =?_refl, =?_eq, =?_ne, arith, some_eq, length, set, count, count-append, hit_self,
  ◌==◌, Bool-cases,
}
use cache_learning_notes.Base.Dict.{lookup, insert, delete, lookup-insert, lookup-delete}
use cache_learning_notes.Layer.Cache.{Node, Cache}
use cache_learning_notes.Layer.Model.{node, node-set_self, node-set_ne, IsValid}

module _ {V : Type 0} where
  pub record IsIndex (m : List (Node V)) (hmap : List (Text × ℕ)) (ids : List ℕ) : Type 0 where
    pub keyed :
        (key : Text) (i : ℕ) → lookup key hmap ≡ some i → (0 < count i ids) × ((node m i).k ≡ key)
    pub indexed : (i : ℕ) → 0 < count i ids → lookup (node m i).k hmap ≡ some i

  pub Index-insert :
      (m : List (Node V)) (hmap : List (Text × ℕ)) (others : List ℕ) (i : ℕ) (e : Node V)
      → IsIndex m hmap others
      → lookup e.k hmap ≡ none
      → count i others ≡ 0
      → count 0 others ≡ 0
      → 0 < i
      → i ≤ length m
      → IsIndex (set m (i - 1) e) (insert e.k i hmap) (i ∷ others)
  unfolding count
  Index-insert m hmap others i e x miss fresh z p h =
      let self : node (set m (i - 1) e) i ≡ e = node-set_self m i e p h in
      record {
        keyed = λ key j found. elim (Bool-cases (e.k =? key)) [
          | inl same ↦
              let eq : e.k ≡ key = =?_eq e.k key same in
              let ij : i ≡ j = some_eq (rw (lookup-insert, same) at found) in
              rw (← ij) (omega (arith, hit_self i), rw self eq)
          | inr other ↦
              let old = rw (lookup-insert, other) at found in
              let (there, named) = x.keyed key j old in
              let ne : i ≢ j = λ q. omega (arith, there, fresh, ap (λ w. count w others) q) in
              let ne0 : j ≢ 0 = λ q. omega (arith, there, z, ap (λ w. count w others) q) in
              (omega (arith, there), rw (node-set_ne m i j e p (omega (arith, ne0)) ne) named)
        ];
        indexed = λ j there. elim (Bool-cases (i == j)) [
          | inl same ↦ let eq : i ≡ j = ground arith in rw (← eq, self, lookup-insert, =?_refl)
          | inr other ↦
              let ne : i ≢ j = ground arith in
              let in_others : 0 < count j others = ground (arith, there) in
              let ne0 : j ≢ 0 = λ q. omega (arith, in_others, z, ap (λ w. count w others) q) in
              let found = x.indexed j in_others in
              elim (Bool-cases (e.k =? (node m j).k)) [
                | inl same_key ↦
                    let eq : e.k ≡ (node m j).k = =?_eq e.k (node m j).k same_key in
                    let clash : none ≡ some j = sym miss ∙ rw (← eq) at found in cc
                | inr other_key ↦
                    rw (node-set_ne m i j e p (omega (arith, ne0)) ne, lookup-insert, other_key)
                      found
              ]
        ];
      }

  pub Index-delete :
      (m : List (Node V)) (hmap : List (Text × ℕ)) (xs : List ℕ) (i : ℕ) (ys : List ℕ)
      → IsIndex m hmap (xs ++ i ∷ ys)
      → ((j : ℕ) → count j (xs ++ i ∷ ys) ≤ 1)
      → IsIndex m (delete (node m i).k hmap) (xs ++ ys)
  unfolding count
  Index-delete m hmap xs i ys x once =
      let split = λ (j : ℕ). count-append j xs (i ∷ ys) in
      let gone : lookup (node m i).k hmap ≡ some i =
        x.indexed i (omega (arith, split i, hit_self i)) in
      record {
        keyed = λ key j found. elim (Bool-cases ((node m i).k =? key)) [
          | inl same ↦ let clash : none ≡ some j = rw (lookup-delete, same) at found in cc
          | inr other ↦
              let (there, named) = x.keyed key j (rw (lookup-delete, other) at found) in
              let ne : j ≢ i = λ q. =?_ne (node m i).k key other (rw (← q) named) in
              (ground (arith, there, split j, count-append j xs ys, ne), named)
        ];
        indexed = λ j there.
            let apart : j ≢ i = λ q.
              let twice : 0 < count i (xs ++ ys) = subst (λ w. 0 < count w (xs ++ ys)) q there in
              omega (arith, once i, split i, count-append i xs ys, hit_self i) in
            let found = x.indexed j (omega (arith, there, split j, count-append j xs ys)) in
            elim (Bool-cases ((node m i).k =? (node m j).k)) [
              | inl same ↦
                  let eq : (node m i).k ≡ (node m j).k = =?_eq (node m i).k (node m j).k same in
                  let clash : some i ≡ some j = sym gone ∙ rw (← eq) at found in
                  absurd (apart (sym (some_eq clash)))
              | inr other ↦ rw (lookup-delete, other) found
            ];
      }

  pub IsValid-IsIndex : (c : Cache V) {ids : List ℕ} → IsValid c ids → IsIndex c.m c.hmap ids
  IsValid-IsIndex c v = record { keyed = v.keyed; indexed = v.indexed }

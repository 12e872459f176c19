-- ===== src/Store/Clear.antt =====
-- `Clear` of pkg/store/lru2.go on a well-formed store.
use cache_learning_notes.Base.{
  ℕ, zero, suc, ◌<◌, ◌≡◌, refl, sym, ap, ◌∙◌, subst, inl, inr, List, [], ◌∷◌, ◌++◌, Option, none,
  some, Bool, true, false, ◌||◌, Text, text_eq, ◌=?◌, =?_eq, =?_ne, arith, length, Bool-cases, ok,
  Exec, at,
}
use cache_learning_notes.Base.Int.{ℤ}
use cache_learning_notes.Layer.Cache.{Node, Calls}
use cache_learning_notes.Layer.Spec
use cache_learning_notes.Layer.Walk.{walk-Models}
use cache_learning_notes.Store.Bucket
use cache_learning_notes.Store.Bucket.{Bucket, contains, collect, collect_new}
use cache_learning_notes.Store.CleanUp.{unless, unless_twice}
use cache_learning_notes.Store.Collect.{collect_lem, collect_new_lem, passes, any_passing-passes}
use cache_learning_notes.Store.Hash.{bucket_index}
use cache_learning_notes.Layer.Reads.{Models-Distinct}
use cache_learning_notes.Store.Invariant.{Views, IsStore, shown, update, inside}
use cache_learning_notes.Store.Methods.{delete_on_store_lem}
use cache_learning_notes.Store.Model.{BucketModels, valid, visible}
use cache_learning_notes.Store.RoundTrip.{shown_after, updated_at}
use cache_learning_notes.Store.Ops
use cache_learning_notes.Store.Ops.{Store}

abbrev all : ℤ → Bool
all _ = true

or_false : (a b c : Bool) → (a || b) || c ≡ false → (a ≡ false) × (b ≡ false) × (c ≡ false)
or_false a b c h = ground arith

each_index : (P : ℕ → Type 0) → P 0 → ((j : ℕ) → P (suc j)) → (j : ℕ) → P j
each_index P z s zero = z
each_index P z s (suc j) = s j

module _ {V : Type 0} (size₁ size₂ : ℕ) where
  passes-all : (o : Option (Node V)) → passes all o ≡ false → o ≡ none
  passes-all none h = refl
  passes-all (some e) h = cc

  -- The keys of one bucket are all those that it shows.
  pub record Collected (keys : List Text) (s₁ s₂ : List (Node V)) (run : Exec (List Text))
      : Type 0 where
    pub found : List Text
    pub ran : run ≡ ok found
    pub before : (q : Text) → contains found q ≡ false → contains keys q ≡ false
    pub missing : (q : Text) → contains found q ≡ false → visible q s₁ s₂ ≡ none

  collect-Collected :
      (b : Bucket V) (s₁ s₂ : List (Node V)) (keys : List Text)
      → BucketModels b size₁ size₂ s₁ s₂
      → Collected keys s₁ s₂ (Bucket.collect_keys all b keys)
  unfolding Bucket.collect_keys
  collect-Collected b s₁ s₂ keys model =
      let ks₁ = Spec.fold (collect all) keys (Spec.live s₁) in
      let ks = Spec.fold (collect_new all) ks₁ (Spec.live s₂) in
      let d₁ = Models-Distinct b.level1 size₁ s₁ model.first in
      let d₂ = Models-Distinct b.level2 size₂ s₂ model.second in
      let seen : (q : Text)
          → contains ks q
            ≡ (contains keys q || passes all (valid q s₁)) || passes all (valid q s₂) =
        λ q.
          collect_new_lem all q s₂ ks₁
          ∙ rw
              (
                collect_lem all q s₁ keys,
                any_passing-passes all q s₁ d₁,
                any_passing-passes all q s₂ d₂,
              )
              refl in
      let none_left = λ (q : Text) (h : contains ks q ≡ false).
        or_false (contains keys q) (passes all (valid q s₁)) (passes all (valid q s₂))
          (sym (seen q) ∙ h) in
      record {
        found = ks;
        ran =
            rw
              (
                walk-Models (collect all) b.level1 size₁ s₁ keys model.first,
                walk-Models (collect_new all) b.level2 size₂ s₂ ks₁ model.second,
              )
              refl;
        before = λ q h. (none_left q h).0;
        missing = λ q h. rw (passes-all _ (none_left q h).1, passes-all _ (none_left q h).2) refl;
      }

  keys_lem :
      (bs : List (Bucket V)) (view : Views V) (keys : List Text)
      → ((j : ℕ) (b : Bucket V) → at bs j ≡ ok b → BucketModels b size₁ size₂ (view j).0 (view j).1)
      → (ks : List Text) × (Ops.all_keys bs keys ≡ ok ks)
        × ((q : Text) → contains ks q ≡ false → contains keys q ≡ false)
        × ((q : Text)
            → contains ks q ≡ false
            → (j : ℕ) → j < length bs
            → visible q (view j).0 (view j).1 ≡ none)
  unfolding Ops.all_keys at
  keys_lem [] view keys models = (keys, refl, λ q h. h, λ q k j h. absurd (omega arith))
  keys_lem (b ∷ bs) view keys models =
      let c = collect-Collected b (view 0).0 (view 0).1 keys (models 0 b refl) in
      let (ks, ran, before, missing) =
        keys_lem bs (λ j. view (suc j)) c.found (λ j b' h. models (suc j) b' h) in
      (
        ks,
        rw (c.ran, Ops.all_keys) ran,
        λ q h. c.before q (before q h),
        λ q h.
            each_index (λ j. j < length (b ∷ bs) → visible q (view j).0 (view j).1 ≡ none)
              (λ _. c.missing q (before q h)) (λ j k. missing q h j (omega (arith, k))),
      )

  visible-none :
      (q : Text) (s₁ s₂ : List (Node V))
      → valid q s₁ ≡ none
      → valid q s₂ ≡ none
      → visible q s₁ s₂ ≡ none
  visible-none q s₁ s₂ h k = rw (h, k) refl

  delete_lem :
      (s : Store V) (view : Views V) (key : Text) (store : IsStore s size₁ size₂ view) (q : Text)
      → let w = delete_on_store_lem s size₁ size₂ view store key in
        shown w.after (update (bucket_index s.mask key) (w.first, w.second) view) q
        ≡ unless (q =? key) (shown s view q)
  delete_lem s view key store q =
      let w = delete_on_store_lem s size₁ size₂ view store key in
      let v : List (Node V) × List (Node V) = (w.first, w.second) in
      elim (Bool-cases (q =? key)) [
        | inl same ↦ rw same (
            subst (λ z. shown w.after (update (bucket_index s.mask key) v view) z ≡ none)
              (sym (=?_eq q key same))
              (ap (λ z. visible key z.0 z.1)
                  (updated_at s size₁ size₂ view store key v w.after.mask w.mask_kept)
                ∙ visible-none key w.first w.second w.holds.gone₁ w.holds.gone₂))
        | inr apart ↦
            rw apart
              (shown_after s size₁ size₂ view store q key w (w.holds.others q (=?_ne q key apart)))
      ]

  -- A store after a run that deletes the keys of a test.
  pub record Deleted (s : Store V) (view : Views V) (goes : Text → Bool)
      (run : Exec (Store V × Calls V)) : Type 0 where
    pub after : Store V
    pub view' : Views V
    pub calls : Calls V
    pub ran : run ≡ ok (after, calls)
    pub well_formed : IsStore after size₁ size₂ view'
    pub left : (q : Text) → shown after view' q ≡ unless (goes q) (shown s view q)

  delete_each-Deleted :
      (s : Store V) (view : Views V) (keys : List Text)
      → IsStore s size₁ size₂ view
      → Deleted s view (contains keys) (Ops.delete_each s keys)
  unfolding Ops.delete_each contains
  delete_each-Deleted s view [] store = record {
    after = s;
    view' = view;
    calls = [];
    ran = refl;
    well_formed = store;
    left = λ q. refl;
  }
  delete_each-Deleted s view (key ∷ keys) store =
      let w = delete_on_store_lem s size₁ size₂ view store key in
      let rest = delete_each-Deleted w.after _ keys w.well_formed in
      record {
        after = rest.after;
        view' = rest.view';
        calls = w.result.1 ++ rest.calls;
        ran = rw (w.ran, rest.ran) refl;
        well_formed = rest.well_formed;
        left = λ q.
            unless_twice (contains keys q) (q =? key) _ _ _ (delete_lem s view key store q)
              (rest.left q);
      }

  -- On a well-formed store `Clear` does not panic and ends, and the store that it leaves is well
  -- formed and shows no key.
  pub clear-shown :
      (s : Store V) (view : Views V)
      → IsStore s size₁ size₂ view
      → (s' : Store V) × (view' : Views V) × (calls : Calls V) × (Ops.clear s ≡ ok (s', calls))
        × IsStore s' size₁ size₂ view'
        × ((q : Text) → shown s' view' q ≡ none)
  unfolding Ops.clear
  clear-shown s view store =
      let (ks, ran, before, missing) = keys_lem s.buckets view [] store.models in
      let d = delete_each-Deleted s view ks store in
      (
        d.after,
        d.view',
        d.calls,
        rw ran d.ran,
        d.well_formed,
        λ q. d.left q ∙ elim (Bool-cases (contains ks q)) [
          | inl there ↦ rw there refl
          | inr missed ↦
              rw missed
                (missing q missed (bucket_index s.mask q) (inside s size₁ size₂ view store q))
        ],
      )

-- ===== src/Store/CleanStore.antt =====
-- One tick of `cleanupLoop` of pkg/store/lru2.go on a well-formed store.
use cache_learning_notes.Base.{
  ℕ, zero, suc, ◌<◌, ◌≡◌, refl, ap, ◌∙◌, subst, List, [], ◌∷◌, ◌++◌, Option, Bool, true, false,
  ◌||◌, Text, arith, length, ok, ok_eq, at,
}
use cache_learning_notes.Base.Int.{ℤ}
use cache_learning_notes.Layer.Cache.{Node, Calls}
use cache_learning_notes.Store.Bucket.{Bucket, expired}
use cache_learning_notes.Store.CleanUp.{unless, clean_up-Cleared}
use cache_learning_notes.Store.Collect.{passes}
use cache_learning_notes.Store.Hash.{bucket_index}
use cache_learning_notes.Store.Invariant.{Views, IsStore, shown, inside}
use cache_learning_notes.Store.Model.{BucketModels, valid, visible, or_else}
use cache_learning_notes.Store.Ops
use cache_learning_notes.Store.Ops.{Store}

-- Whether a key has an expired entry in one of the levels of a bucket.
abbrev pub goes : {V : Type 0} → ℤ → Text → List (Node V) × List (Node V) → Bool
goes now q v = passes (expired now) (valid q v.0) || passes (expired now) (valid q v.1)

module _ {V : Type 0} (size₁ size₂ : ℕ) (cb : Bool) (now : ℤ) where
  -- The views with one more bucket before the others.
  prepend : List (Node V) × List (Node V) → Views V → Views V
  prepend v view zero = v
  prepend v view (suc j) = view j

  abbrev Modelled : List (Bucket V) → Views V → Type 0
  Modelled bs view =
      (j : ℕ) (b : Bucket V) → at bs j ≡ ok b → BucketModels b size₁ size₂ (view j).0 (view j).1

  record Cleaned (bs : List (Bucket V)) (view : Views V) : Type 0 where
    after : List (Bucket V)
    view' : Views V
    calls : Calls V
    ran : Ops.clean_each cb bs now ≡ ok (after, calls)
    width : length after ≡ length bs
    models : Modelled after view'
    left :
        (q : Text) (j : ℕ)
        → j < length bs
        → visible q (view' j).0 (view' j).1
          ≡ unless (goes now q (view j)) (visible q (view j).0 (view j).1)

  or_else-unless :
      (c : Bool) (o p o' p' : Option (Node V))
      → o' ≡ unless c o
      → p' ≡ unless c p
      → or_else o' p' ≡ unless c (or_else o p)
  or_else-unless true o p o' p' h k = rw (h, k) refl
  or_else-unless false o p o' p' h k = rw (h, k) refl

  with_one_more :
      (b : Bucket V) (bs : List (Bucket V)) (v : List (Node V) × List (Node V)) (view : Views V)
      → BucketModels b size₁ size₂ v.0 v.1
      → Modelled bs view
      → Modelled (b ∷ bs) (prepend v view)
  unfolding at prepend
  with_one_more b bs v view model models zero b' h =
      subst (λ z. BucketModels z size₁ size₂ v.0 v.1) (ok_eq h) model
  with_one_more b bs v view model models (suc j) b' h = models j b' h

  left_cons :
      (q : Text) (j : ℕ) (view : Views V) (t₁ t₂ : List (Node V)) (rest : Views V) (n : ℕ)
      → visible q t₁ t₂ ≡ unless (goes now q (view 0)) (visible q (view 0).0 (view 0).1)
      → ((i : ℕ)
          → i < n
          → visible q (rest i).0 (rest i).1
            ≡ unless (goes now q (view (suc i))) (visible q (view (suc i)).0 (view (suc i)).1))
      → j < suc n
      → visible q (prepend (t₁, t₂) rest j).0 (prepend (t₁, t₂) rest j).1
        ≡ unless (goes now q (view j)) (visible q (view j).0 (view j).1)
  unfolding prepend
  left_cons q zero view t₁ t₂ rest n here later h = here
  left_cons q (suc j) view t₁ t₂ rest n here later h = later j (omega arith)

  clean_each-Cleaned : (bs : List (Bucket V)) (view : Views V) → Modelled bs view → Cleaned bs view
  unfolding Ops.clean_each at prepend
  clean_each-Cleaned [] view models = record {
    after = [];
    view' = view;
    calls = [];
    ran = refl;
    width = refl;
    models = models;
    left = λ q j h. absurd (omega arith);
  }
  clean_each-Cleaned (b ∷ bs) view models =
      let c = clean_up-Cleared cb b size₁ size₂ (view 0).0 (view 0).1 now (models 0 b refl) in
      let rest = clean_each-Cleaned bs (λ j. view (suc j)) (λ j b' h. models (suc j) b' h) in
      record {
        after = c.after ∷ rest.after;
        view' = prepend (c.first, c.second) rest.view';
        calls = c.calls ++ rest.calls;
        ran = rw (c.ran, rest.ran) refl;
        width = ap suc rest.width;
        models =
            with_one_more c.after rest.after (c.first, c.second) rest.view' c.models rest.models;
        left = λ q j.
            left_cons q j view c.first c.second rest.view' (length bs)
              (or_else-unless (goes now q (view 0)) (valid q (view 0).0) (valid q (view 0).1) _ _
                (c.left₁ q) (c.left₂ q))
              (rest.left q);
      }

-- On a well-formed store the clean-up does not panic and ends, and leaves a well-formed store. A
-- key of which one of the levels of its bucket had an expired entry is not shown any more, and
-- every other key shows what it did.
pub clean_up-shown :
    {V : Type 0} (s : Store V) (size₁ size₂ : ℕ) (view : Views V) (now : ℤ)
    → IsStore s size₁ size₂ view
    → (s' : Store V) × (view' : Views V) × (calls : Calls V) × (Ops.clean_up s now ≡ ok (s', calls))
      × IsStore s' size₁ size₂ view'
      × ((q : Text)
          → shown s' view' q ≡ unless (goes now q (view (bucket_index s.mask q))) (shown s view q))
unfolding Ops.clean_up
clean_up-shown s size₁ size₂ view now store =
    let c = clean_each-Cleaned size₁ size₂ s.has_callback now s.buckets view store.models in
    (
      record s { buckets = c.after },
      c.view',
      c.calls,
      rw c.ran refl,
      record {
        requested = store.requested;
        low = store.low;
        high = store.high;
        masked = store.masked;
        width = c.width ∙ store.width;
        models = c.models;
      },
      λ q. c.left q (bucket_index s.mask q) (inside s size₁ size₂ view store q),
    )

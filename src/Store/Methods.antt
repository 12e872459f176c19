-- ===== src/Store/Methods.antt =====
-- `Get`, `SetWithExpiration` and `Delete` of pkg/store/lru2.go on a well-formed store.
use cache_learning_notes.Base.{
  ℕ, ◌≡◌, ◌≢◌, List, Option, none, some, Bool, Text, if◌then◌else◌, refl,
}
use cache_learning_notes.Base.Int.{ℤ}
use cache_learning_notes.Layer.Cache.{Node, Value, Calls, positive}
use cache_learning_notes.Layer.Reads.{Models-Distinct}
use cache_learning_notes.Layer.Spec
use cache_learning_notes.Store.Bucket.{expiration_time, is_some, delete_calls}
use cache_learning_notes.Store.Delete.{delete_lem}
use cache_learning_notes.Store.Get.{get-answer}
use cache_learning_notes.Store.Answer.{answer, Got}
use cache_learning_notes.Store.Hash.{bucket_index}
use cache_learning_notes.Store.Invariant.{Views, IsStore, Stepped, on_bucket_lem}
use cache_learning_notes.Store.Model.{entry, valid, visible, valid-del_self, valid-del_ne}
use cache_learning_notes.Store.Ops
use cache_learning_notes.Store.Ops.{Store, on_bucket}
use cache_learning_notes.Store.Set.{spilled, dropped, drop_calls, set-visible}

module _ {V : Type 0} (s : Store V) (size₁ size₂ : ℕ) (view : Views V)
    (store : IsStore s size₁ size₂ view) (key : Text) where
  abbrev pub s₁ : List (Node V)
  s₁ = (view (bucket_index s.mask key)).0

  abbrev pub s₂ : List (Node V)
  s₂ = (view (bucket_index s.mask key)).1

  pub record HasSet (value : Value V) (e : ℤ) (t₁ t₂ : List (Node V)) (calls : Calls V)
      : Type 0 where
    pub called : calls ≡ drop_calls s.has_callback (dropped size₂ (spilled size₁ key s₁) s₂)
    pub written : valid key t₁ ≡ (if positive e then some (entry key value e) else none)
    pub others :
        (q : Text)
        → q ≢ key
        → ((y : Node V) → dropped size₂ (spilled size₁ key s₁) s₂ ≡ some y → y.k ≢ q)
        → visible q t₁ t₂ ≡ visible q s₁ s₂

  pub set_on_store_lem :
      (value : Value V) (expiration now : ℤ)
      → Stepped s size₁ size₂ view key
          (Ops.set_with_expiration s key value expiration now)
          (HasSet value (expiration_time now expiration))
  unfolding Ops.set_with_expiration
  set_on_store_lem value expiration now =
      on_bucket_lem s size₁ size₂ view store key _ (HasSet value (expiration_time now expiration))
        λ b model.
          let (b', t₂, ran, after, written, others) =
            set-visible s.has_callback b size₁ size₂ s₁ s₂ key value
              (expiration_time now expiration) model in
          (b', _, t₂, _, ran, after, record { called = refl; written = written; others = others })

  pub record HasGot (now now' : ℤ) (t₁ t₂ : List (Node V)) (r : Option (Value V) × Calls V)
      : Type 0 where
    pub answered : r.0 ≡ answer now now' (valid key s₁) (valid key s₂)
    pub got : Got size₂ key now s₁ s₂ t₁ t₂ (answer now now' (valid key s₁) (valid key s₂))

  pub get_on_store_lem :
      (now now' : ℤ) → Stepped s size₁ size₂ view key (Ops.get s key now now') (HasGot now now')
  unfolding Ops.get
  get_on_store_lem now now' =
      on_bucket_lem s size₁ size₂ view store key _ (HasGot now now') λ b model.
        let (b', t₁, t₂, calls, ran, after, got) =
          get-answer s.has_callback b size₁ size₂ s₁ s₂ key now now' model in
        (b', t₁, t₂, (_, calls), rw ran, after, record { answered = refl; got = got })

  pub record HasDeleted (t₁ t₂ : List (Node V)) (r : Bool × Calls V) : Type 0 where
    pub told : r.0 ≡ is_some (visible key s₁ s₂)
    pub gone₁ : valid key t₁ ≡ none
    pub gone₂ : valid key t₂ ≡ none
    pub others : (q : Text) → q ≢ key → visible q t₁ t₂ ≡ visible q s₁ s₂

  pub delete_on_store_lem : Stepped s size₁ size₂ view key (Ops.delete s key) HasDeleted
  unfolding Ops.delete
  delete_on_store_lem = on_bucket_lem s size₁ size₂ view store key _ HasDeleted λ b model.
      let (b', ran, after) = delete_lem s.has_callback b s₁ s₂ key model in
      (
        b',
        _,
        _,
        (
          is_some (visible key s₁ s₂),
          delete_calls s.has_callback key (Spec.del key s₁).1 (Spec.del key s₂).1,
        ),
        rw ran,
        after,
        record {
          told = refl;
          gone₁ = valid-del_self key s₁ (Models-Distinct b.level1 size₁ s₁ model.first);
          gone₂ = valid-del_self key s₂ (Models-Distinct b.level2 size₂ s₂ model.second);
          others = λ q apart. rw (valid-del_ne key s₁ q apart, valid-del_ne key s₂ q apart);
        },
      )

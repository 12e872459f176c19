-- ===== src/Store/Get.antt =====
-- `Get` of pkg/store/lru2.go, on a bucket.
use cache_learning_notes.Base.{
  ℕ, ◌≡◌, sym, ap, ◌∙◌, inl, inr, List, [], Option, none, some, Bool, true, false, Text,
  Option-cases, Bool-cases, ok,
}
use cache_learning_notes.Base.Int.{ℤ}
use cache_learning_notes.Layer.Cache.{Node, Value, Cache, Calls}
use cache_learning_notes.Layer.Del.{del-Models}
use cache_learning_notes.Layer.Get.{get-Models}
use cache_learning_notes.Layer.Put.{put-Models}
use cache_learning_notes.Layer.Reads.{Models-Distinct}
use cache_learning_notes.Layer.Spec
use cache_learning_notes.Store.Bucket
use cache_learning_notes.Store.Bucket.{
  Bucket, delete_calls, past, expired, get_level2, unless_stale,
}
use cache_learning_notes.Store.Delete.{delete_lem}
use cache_learning_notes.Store.Model.{
  BucketModels, valid, valid-del_self, valid-del_ne, del-found, del-missing, valid-put_self,
  valid-put_ne, valid-get,
}
use cache_learning_notes.Store.Answer.{answer, moves, Got, valid-entry, unless_past, level2_lem}

module _ {V : Type 0} where
  module _ (cb : Bool) (b : Bucket V) (size₁ size₂ : ℕ) (s₁ s₂ : List (Node V)) (key : Text)
      (now now' : ℤ) (model : BucketModels b size₁ size₂ s₁ s₂) where
    abbrev pub Gets : Option (Value V) → Type 0
    Gets result =
        (b' : Bucket V) × (t₁ : List (Node V)) × (t₂ : List (Node V)) × (calls : Calls V)
        × (Bucket.get cb b key now now' ≡ ok (b', result, calls))
        × BucketModels b' size₁ size₂ t₁ t₂
        × Got size₂ key now s₁ s₂ t₁ t₂ result

    d₁ : valid key (Spec.del key s₁).0 ≡ none
    d₁ = valid-del_self key s₁ (Models-Distinct b.level1 size₁ s₁ model.first)

    -- A fresh entry of the first level moves to the second.
    get_fresh :
        (e : Node V) → valid key s₁ ≡ some e → past now e.expire_at ≡ false → Gets (some e.v)
    unfolding Bucket.get
    get_fresh e there fresh =
        let (c₁, run₁, m₁) = del-Models b.level1 size₁ s₁ key model.first in
        let (found, alive) = del-found key s₁ e there in
        let (c₂, run₂, m₂) = put-Models b.level2 size₂ s₂ key e.v e.expire_at cb model.second in
        let moved : moves now (valid key s₁) ≡ true = rw (there, fresh) in
        let t₂ = Spec.put size₂ key e.v e.expire_at cb s₂ in
        (
          record { level1 = c₁; level2 = c₂ },
          (Spec.del key s₁).0,
          t₂.0,
          t₂.2,
          rw (run₁, found, alive, fresh, run₂),
          record { first = m₁; second = m₂ },
          record {
            promoted = d₁;
            kept = λ v h.
                rw (d₁, valid-put_self size₂ key e.v e.expire_at cb s₂, alive, there)
                  (ap some (sym (valid-entry key s₁ e there)));
            others = λ q apart safe. rw (
              valid-del_ne key s₁ q apart,
              valid-put_ne size₂ key e.v e.expire_at cb s₂ q apart (safe moved),
            );
          },
        )

    -- An expired entry of the first level goes from both.
    get_expired : (e : Node V) → valid key s₁ ≡ some e → past now e.expire_at ≡ true → Gets none
    unfolding Bucket.get
    get_expired e there gone =
        let (c₁, run₁, m₁) = del-Models b.level1 size₁ s₁ key model.first in
        let (found, alive) = del-found key s₁ e there in
        let between : BucketModels (record b { level1 = c₁ }) size₁ size₂ (Spec.del key s₁).0 s₂ =
          record { first = m₁; second = model.second } in
        let (b', run, m) =
          delete_lem cb (record b { level1 = c₁ }) (Spec.del key s₁).0 s₂ key between in
        let twice = del-missing key (Spec.del key s₁).0 d₁ in
        let d₁' : valid key (Spec.del key (Spec.del key s₁).0).0 ≡ none = rw twice d₁ in
        (
          b',
          (Spec.del key (Spec.del key s₁).0).0,
          (Spec.del key s₂).0,
          delete_calls cb key (Spec.del key (Spec.del key s₁).0).1 (Spec.del key s₂).1,
          rw (run₁, found, alive, gone, run),
          m,
          record {
            promoted = d₁';
            kept = λ v h. cc;
            others =
                λ q apart _. rw (twice, valid-del_ne key s₁ q apart, valid-del_ne key s₂ q apart);
          },
        )

    module _ (miss : valid key s₁ ≡ none) where
      -- The state in which the second level has been read, and the run so far.
      read_second :
          (c₁ : Cache V) × (c₂ : Cache V) × (Bucket.get cb b key now now'
            ≡ Bucket.get_second cb
                (record { level1 = c₁; level2 = c₂ })
                key
                now
                (unless_past now' (valid key s₂)))
          × BucketModels (record { level1 = c₁; level2 = c₂ }) size₁ size₂ s₁ (Spec.get key s₂).0
      unfolding Bucket.get get_level2
      read_second =
          let (c₁, run₁, m₁) = del-Models b.level1 size₁ s₁ key model.first in
          let (c₂, run₂, m₂) = get-Models b.level2 size₂ s₂ key model.second in
          let same = del-missing key s₁ miss in
          (
            c₁,
            c₂,
            rw (run₁, same, run₂)
                (ap (Bucket.get_second cb (record { level1 = c₁; level2 = c₂ }) key now)
                  (level2_lem key s₂ now')),
            record { first = rw same at m₁; second = m₂ },
          )

      -- Reading the second level changes the order of its nodes alone.
      Got-read : (result : Option (Value V)) → Got size₂ key now s₁ s₂ s₁ (Spec.get key s₂).0 result
      Got-read result = record {
        promoted = miss;
        kept = λ v h. rw (valid-get key s₂ key);
        others = λ q apart safe. rw (valid-get key s₂ q);
      }

      get_missing : valid key s₂ ≡ none → Gets none
      unfolding Bucket.get_second
      get_missing none_there =
          let (c₁, c₂, run, m) = read_second in
          (
            record { level1 = c₁; level2 = c₂ },
            s₁,
            (Spec.get key s₂).0,
            [],
            rw none_there at run,
            m,
            Got-read none,
          )

      get_stale : (e : Node V) → valid key s₂ ≡ some e → past now' e.expire_at ≡ true → Gets none
      unfolding Bucket.get_second
      get_stale e there gone =
          let (c₁, c₂, run, m) = read_second in
          (
            record { level1 = c₁; level2 = c₂ },
            s₁,
            (Spec.get key s₂).0,
            [],
            run ∙ rw (there, gone),
            m,
            Got-read none,
          )

      get_hit :
          (e : Node V)
          → valid key s₂ ≡ some e
          → past now' e.expire_at ≡ false
          → past now e.expire_at ≡ false
          → Gets (some e.v)
      unfolding Bucket.get_second
      get_hit e there fresh' fresh =
          let (c₁, c₂, run, m) = read_second in
          (
            record { level1 = c₁; level2 = c₂ },
            s₁,
            (Spec.get key s₂).0,
            [],
            run ∙ rw (there, fresh', (del-found key s₂ e there).1, fresh),
            m,
            Got-read (some e.v),
          )

      get_late :
          (e : Node V)
          → valid key s₂ ≡ some e
          → past now' e.expire_at ≡ false
          → past now e.expire_at ≡ true
          → Gets none
      unfolding Bucket.get_second
      get_late e there fresh' gone =
          let (c₁, c₂, run, m) = read_second in
          let u₂ = (Spec.get key s₂).0 in
          let (b', run', m') = delete_lem cb (record { level1 = c₁; level2 = c₂ }) s₁ u₂ key m in
          (
            b',
            (Spec.del key s₁).0,
            (Spec.del key u₂).0,
            delete_calls cb key (Spec.del key s₁).1 (Spec.del key u₂).1,
            run ∙ rw (there, fresh', (del-found key s₂ e there).1, gone, run'),
            m',
            record {
              promoted = d₁;
              kept = λ v h. cc;
              others = λ q apart _.
                  rw (valid-del_ne key s₁ q apart, valid-del_ne key u₂ q apart, valid-get key s₂ q);
            },
          )

    -- On a bucket that stands for two lists of nodes `Get` does not panic; it answers with the
    -- value of the entry that the bucket shows, unless that has expired. Afterwards the first level
    -- has no valid node of the key, an entry that was answered is still shown, and every other key
    -- shows what it did, except that the promotion of an entry of the first level may displace the
    -- last node of a full second level.
    pub get-answer : Gets (answer now now' (valid key s₁) (valid key s₂))
    unfolding answer
    get-answer = elim (Option-cases (valid key s₁)) [
      | inr (e, there) ↦ elim (Bool-cases (past now e.expire_at)) [
        | inl gone ↦ rw (there, answer, gone) (get_expired e there gone)
        | inr fresh ↦ rw (there, answer, fresh) (get_fresh e there fresh)
      ]
      | inl miss ↦ elim (Option-cases (valid key s₂)) [
        | inl gone ↦ rw (miss, gone) (get_missing miss gone)
        | inr (e, there) ↦ elim (Bool-cases (past now' e.expire_at)) [
          | inl stale ↦ rw (miss, there, answer, stale) (get_stale miss e there stale)
          | inr fresh' ↦ elim (Bool-cases (past now e.expire_at)) [
            | inl late ↦ rw (miss, there, answer, fresh', late) (get_late miss e there fresh' late)
            | inr fresh ↦
                rw (miss, there, answer, fresh', fresh) (get_hit miss e there fresh' fresh)
          ]
        ]
      ]
    ]

-- ===== src/Tests/Buckets.antt =====
-- A bucket of pkg/store/lru2.go at concrete inputs: a full first level over an empty second one.
use cache_learning_notes.Base.{
  ℕ, [], Option, some, none, true, arith, ◌≡◌, ◌≢◌, refl, sym, ap, ◌∙◌, some_eq,
}
use cache_learning_notes.Base.Int.{pos}
use cache_learning_notes.Layer.Cache.{Node, create}
use cache_learning_notes.Layer.Walk.{create-Models}
use cache_learning_notes.Store.Bucket.{Bucket}
use cache_learning_notes.Store.Delete.{Deletes, delete-visible}
use cache_learning_notes.Store.Get.{Gets, get-answer}
use cache_learning_notes.Store.Answer.{answer}
use cache_learning_notes.Store.Model.{BucketModels, entry, valid, visible}
use cache_learning_notes.Store.Set.{Sets, set-visible}
use cache_learning_notes.Tests.Layers.{a, b, c, full, nodes_ba, full-Models, program}

abbrev pub two_levels : Bucket ℕ
two_levels = record { level1 = full; level2 = create 2 }

pub two_levels-BucketModels : BucketModels two_levels 2 2 nodes_ba []
two_levels-BucketModels = record {
  first = full-Models;
  second = create-Models 2 (omega arith) (omega arith);
}

get-answer_example :
    Gets true two_levels 2 2 nodes_ba [] a
      (pos 10)
      (pos 10)
      two_levels-BucketModels
      (answer (pos 10) (pos 10) (valid a nodes_ba) (valid a []))
get-answer_example =
    get-answer true two_levels 2 2 nodes_ba [] a (pos 10) (pos 10) two_levels-BucketModels

b-visible : visible b nodes_ba [] ≡ some (entry b (some 2) (pos 60))
unfolding program valid
b-visible = refl

two_proper : ◌≢◌ {A = Option ℕ} (some 2) none
two_proper p = cc

b_proper : (e : Node ℕ) → visible b nodes_ba [] ≡ some e → e.v ≢ none
b_proper e h n = two_proper (ap Node.v (some_eq (sym b-visible ∙ h)) ∙ n)

delete-visible_example : Deletes true two_levels nodes_ba [] b two_levels-BucketModels
delete-visible_example =
    delete-visible true two_levels nodes_ba [] b two_levels-BucketModels b_proper

set-visible_example :
    Sets true two_levels 2 2 nodes_ba [] c (some 3) (pos 70) two_levels-BucketModels
set-visible_example =
    set-visible true two_levels 2 2 nodes_ba [] c (some 3) (pos 70) two_levels-BucketModels

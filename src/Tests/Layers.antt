-- ===== src/Tests/Layers.antt =====
-- One layer of pkg/store/lru2.go at concrete inputs: a layer of two nodes that is written three times.
use cache_learning_notes.Base.{
  Exec, Bool, ltb, count, length, ℕ, List, [], ◌∷◌, ◌++◌, some, none, true, Text, text_eq, text_beq,
  arith, ◌≡◌, refl, ok, ◌>>=◌, at, write,
}
use cache_learning_notes.Base.Dict.{lookup, insert, delete}
use cache_learning_notes.Base.Int.{pos}
use cache_learning_notes.Layer.Adjust.{Ring, IsOrder, adjust_links-Ring}
use cache_learning_notes.Layer.Cache.{
  Node, Value, Cache, create, adjust, put, put_known, put_full, put_new, get, del, walk, positive,
}
use cache_learning_notes.Layer.Del.{del-Models}
use cache_learning_notes.Layer.Get.{get-Models}
use cache_learning_notes.Layer.Links.{
  prev, next, Link, link, set_link, unlink, relink, adjust_links,
}
use cache_learning_notes.Layer.Memory.{links_of}
use cache_learning_notes.Layer.Model.{Models}
use cache_learning_notes.Layer.Put.{put-Models}
use cache_learning_notes.Layer.Slots.{Puts, Gives}
use cache_learning_notes.Layer.Spec
use cache_learning_notes.Layer.Walk.{walk-Models, create-Models}

unfoldable pub program : Unit {0}
unfolding text_beq at write lookup insert delete link set_link unlink relink adjust_links create
    adjust put_known put_full put_new put get del walk positive Spec.put Spec.find Spec.remove
    Spec.pop_back Spec.live Spec.fold Spec.get Spec.del
program = tt

abbrev pub a : Text
a = b'a' ∷ []

abbrev pub b : Text
b = b'b' ∷ []

abbrev pub c : Text
c = b'c' ∷ []

-- Two keys fill the layer, and the third takes the place of the first, which the callback sees.
three_puts : Exec (List (Text × Value ℕ) × ℕ)
three_puts = do
  (c₁, _, _) ← put (create 2) a (some 1) (pos 50) true
  (c₂, _, _) ← put c₁ b (some 2) (pos 60) true
  (c₃, _, calls) ← put c₂ c (some 3) (pos 70) true
  ok (calls, c₃.last)

three_puts_evict : three_puts ≡ ok ((a, some 1) ∷ [], 2)
unfolding program three_puts
three_puts_evict = refl

abbrev pub none_yet : Cache ℕ
none_yet = create 2

pub none_yet-Models : Models none_yet 2 []
none_yet-Models = create-Models 2 (omega arith) (omega arith)

create-Models_example : Models none_yet 2 []
create-Models_example = create-Models 2 (omega arith) (omega arith)

abbrev pub first_put :
    Puts (put none_yet a (some 1) (pos 50) true) 2 (Spec.put 2 a (some 1) (pos 50) true [])
first_put = put-Models none_yet 2 [] a (some 1) (pos 50) true none_yet-Models

abbrev pub holding_a : Cache ℕ
holding_a = first_put.0

abbrev pub nodes_a : List (Node ℕ)
nodes_a = (Spec.put {V = ℕ} 2 a (some 1) (pos 50) true []).0

abbrev pub second_put :
    Puts (put holding_a b (some 2) (pos 60) true) 2 (Spec.put 2 b (some 2) (pos 60) true nodes_a)
second_put = put-Models holding_a 2 nodes_a b (some 2) (pos 60) true first_put.2

abbrev pub full : Cache ℕ
full = second_put.0

abbrev pub nodes_ba : List (Node ℕ)
nodes_ba = (Spec.put {V = ℕ} 2 b (some 2) (pos 60) true nodes_a).0

pub full-Models : Models full 2 nodes_ba
full-Models = second_put.2

put-Models_example :
    Puts (put full c (some 3) (pos 70) true) 2 (Spec.put 2 c (some 3) (pos 70) true nodes_ba)
put-Models_example = put-Models full 2 nodes_ba c (some 3) (pos 70) true full-Models

get-Models_example : Gives (get full a) 2 (Spec.get a nodes_ba)
get-Models_example = get-Models full 2 nodes_ba a full-Models

del-Models_example : Gives (del full b) 2 (Spec.del b nodes_ba)
del-Models_example = del-Models full 2 nodes_ba b full-Models

-- Collecting values until one is 2.
abbrev up_to_two : List (Value ℕ) → Node ℕ → List (Value ℕ) × Bool
up_to_two vs e = (vs ++ e.v ∷ [], elim e.v [ none ↦ true | some v ↦ ltb v 2 ])

walk-Models_example : walk full up_to_two [] ≡ ok (Spec.fold up_to_two [] (Spec.live nodes_ba))
walk-Models_example = walk-Models up_to_two full 2 nodes_ba [] full-Models

abbrev three_links : List Link
three_links = record { p = 2; n = 1 } ∷ record { p = 0; n = 2 } ∷ record { p = 1; n = 0 } ∷ []

three_links-Ring : Ring three_links next (1 ∷ 2 ∷ [])
unfolding links_of
three_links-Ring = record { path = (refl, refl, (refl, refl, (refl, refl))) }

three_links-IsOrder : IsOrder (1 ∷ 2 ∷ []) 3
unfolding count
three_links-IsOrder = record {
  once = λ i. ground arith;
  no_zero = refl;
  below = λ i h. ground arith;
  room = omega arith;
}

adjust_links-Ring_example :
    (d : List Link) × (adjust_links three_links 2 prev next ≡ ok d)
    × (length d ≡ 3)
    × Ring d next (2 ∷ 1 ∷ [])
adjust_links-Ring_example =
    adjust_links-Ring three_links next 3 (1 ∷ []) 2 [] refl three_links-IsOrder three_links-Ring

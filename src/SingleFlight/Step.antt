-- ===== src/SingleFlight/Step.antt =====
-- `Do` of internal/singleflight/singleflight.go as a program of many goroutines. Each access of the
-- shared map is one step, and so is the run of `fn` with the stores of its result; the goroutines
-- interleave in any order. A goroutine is a number, and a `*call` is a number too. `fn` returns: a
-- panic of it ends the program.
use cache_learning_notes.Base.{
  ℕ, suc, List, [], Option, none, some, Text, text_eq, ◌≡◌, ◌==◌, if◌then◌else◌,
}
use cache_learning_notes.Base.Dict.{lookup, insert, delete}

-- `val` and `err` are the one result, which is there once the wait group is done. Of the key and of the
-- goroutine that made the call the code keeps no record.
pub record Call (R : Type 0) : Type 0 where
  pub result : Option R
  pub key : Text
  pub leader : ℕ

-- Where a goroutine stands in `Do` for a key: before the load; after a load that found no call; in
-- `fn` and before `Done`; before the deletion; in `Wait`; after the return.
pub data Pc (R : Type 0) : Type 0 where
  ready : Text → Pc R
  creating : Text → Pc R
  running : Text → ℕ → Pc R
  finished : Text → ℕ → Pc R
  waiting : Text → ℕ → Pc R
  returned : Text → R → Pc R

-- `next` is the number of the next call that is made.
pub record Group (R : Type 0) : Type 0 where
  pub m : List (Text × ℕ)
  pub calls : ℕ → Call R
  pub next : ℕ
  pub pc : ℕ → Pc R

abbrev pub set_at : {A : Type 0} → ℕ → A → (ℕ → A) → ℕ → A
set_at i a f j = if i == j then a else f j

module _ {R : Type 0} where
  abbrev pub at_pc : Group R → ℕ → Pc R → Group R
  at_pc s t p = record s { pc = set_at t p s.pc }

  abbrev pub with_result : Call R → R → Call R
  with_result c r = record c { result = some r }

  pub data Step (s : Group R) : Group R → Type 0 where
    load_hit :
        (t : ℕ) (key : Text) (c : ℕ)
        → s.pc t ≡ ready key
        → lookup key s.m ≡ some c
        → Step s (at_pc s t (waiting key c))
    load_miss :
        (t : ℕ) (key : Text)
        → s.pc t ≡ ready key
        → lookup key s.m ≡ none
        → Step s (at_pc s t (creating key))
    store :
        (t : ℕ) (key : Text)
        → s.pc t ≡ creating key
        → Step s (record {
          m = insert key s.next s.m;
          calls = set_at s.next (record { result = none; key = key; leader = t }) s.calls;
          next = suc s.next;
          pc = set_at t (running key s.next) s.pc;
        })
    run :
        (t : ℕ) (key : Text) (c : ℕ) (r : R)
        → s.pc t ≡ running key c
        → Step s (record s {
          calls = set_at c (with_result (s.calls c) r) s.calls;
          pc = set_at t (finished key c) s.pc;
        })
    clean :
        (t : ℕ) (key : Text) (c : ℕ) (r : R)
        → s.pc t ≡ finished key c
        → (s.calls c).result ≡ some r
        → Step s (record s { m = delete key s.m; pc = set_at t (returned key r) s.pc })
    wake :
        (t : ℕ) (key : Text) (c : ℕ) (r : R)
        → s.pc t ≡ waiting key c
        → (s.calls c).result ≡ some r
        → Step s (at_pc s t (returned key r))

  -- No call was made yet, and each goroutine is before the load for its key.
  abbrev pub init : (ℕ → Text) → (ℕ → Call R) → Group R
  init wants unused = record { m = []; calls = unused; next = 0; pc = λ t. ready (wants t) }

  pub data Reach (wants : ℕ → Text) (unused : ℕ → Call R) : Group R → Type 0 where
    start : Reach wants unused (init wants unused)
    later : {s s' : Group R} → Reach wants unused s → Step s s' → Reach wants unused s'

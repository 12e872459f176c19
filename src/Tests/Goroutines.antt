-- ===== src/Tests/Goroutines.antt =====
-- The clock of pkg/store/lru2.go and the election of internal/consistenthash/con_hash.go in short runs.
use cache_learning_notes.Base.{◌+◌, ◌≤◌, ◌≡◌, refl, true, arith, ok, panic, [], ◌∷◌}
use cache_learning_notes.ConHash.Election.{
  run_election, follow_loop, follow_case, won, lost, response, channel_closed, ctx_done, waits,
  returned, all_open, is_open, run_election-lost,
}
use cache_learning_notes.Store.Clock
use cache_learning_notes.Store.Clock.{Clocks, Reach, now, tenth, reach-now}
use cache_learning_notes.Tests.Layers.{a}

-- A calibration 7 nanoseconds after the start, and an addition that is a little late.
abbrev added : Clocks
added = record {
  clock = 7 + tenth;
  system = 7 + (tenth + 3);
  phase = Clock.sleeping 1 (7 + (tenth + 3) + tenth);
}

reach_added : Reach 0 added
reach_added =
    Clock.later
      (Clock.later
        (Clock.later
          (Clock.later (Clock.later Clock.start (Clock.time_passes 7)) (Clock.read_system refl))
          (Clock.calibrate 7 refl))
        (Clock.time_passes (tenth + 3)))
      (Clock.add 0 (7 + tenth) refl (omega arith) (omega arith))

reach-now_example : now added ≤ added.system
reach-now_example = reach-now 0 added reach_added

both_open : all_open (response (a ∷ []) ∷ channel_closed ∷ []) ≡ true
unfolding all_open is_open
both_open = refl

-- A campaign that is won and one that is lost. Then there is a leader, and the channel is closed.
run_election-lost_example :
    (run_election (won ∷ lost (response (a ∷ []) ∷ channel_closed ∷ []) ∷ won ∷ [])
      ≡ ok (record { campaigns = 2; ending = waits }))
    × (run_election (won ∷ lost (response (a ∷ []) ∷ channel_closed ∷ ctx_done ∷ []) ∷ won ∷ [])
        ≡ ok (record { campaigns = 2; ending = returned }))
run_election-lost_example =
    run_election-lost 1 (response (a ∷ []) ∷ channel_closed ∷ []) [] (won ∷ []) both_open

-- A response without pairs.
no_pairs_panics : run_election (lost (response [] ∷ []) ∷ []) ≡ panic
unfolding run_election follow_loop follow_case
no_pairs_panics = refl

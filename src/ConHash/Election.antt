-- ===== src/ConHash/Election.antt =====
-- The election of a leader in `RunElection` of internal/consistenthash/con_hash.go: its two loops and the
-- select, statement by statement. What etcd and the context deliver is an argument.
use cache_learning_notes.Base.{
  ℕ, zero, suc, ◌≡◌, refl, ap, ◌∙◌, List, [], ◌∷◌, ◌++◌, Text, Exec, ok, panic, no_fuel, ◌>>=◌,
  replicate, Bool, true, false, ◌&&◌, arith,
}

-- What the select of a follower receives: that the context is done, a response with the values of its
-- pairs, or that the channel of responses is closed.
pub data Case : Type 0 where
  ctx_done : Case
  response : List Text → Case
  channel_closed : Case

-- How a statement of Go ends.
pub data Control : Type 0 where
  falls_through : Control
  breaks : Control
  returns : Control

-- The body of a case of the select. `resp.Kvs[0]` of a response without pairs panics.
unfoldable pub follow_case : Case → Exec Control
follow_case ctx_done = ok returns
follow_case channel_closed = ok breaks
follow_case (response []) = panic
follow_case (response (_ ∷ _)) = ok falls_through

-- A select, for the end of its case: a `break` without a label ends the innermost `for`, `switch` or
-- `select`.
unfoldable pub end_select : Control → Control
end_select falls_through = falls_through
end_select breaks = falls_through
end_select returns = returns

-- Where a loop without a condition stands when there is nothing more to receive.
pub data Ending : Type 0 where
  waits : Ending
  left : Ending
  returned : Ending

-- The inner loop, whose body is the select.
unfoldable pub follow_loop : List Case → Exec Ending
unfolding follow_case end_select
follow_loop [] = ok waits
follow_loop (c ∷ cases) = follow_case c >>= λ control. elim (end_select control) [
  | falls_through ↦ follow_loop cases
  | breaks ↦ ok left
  | returns ↦ ok returned
]

-- What a round of the outer loop meets: no session can be made; the campaign is won, and later the
-- leader retires, with its session or the context; or the campaign is lost, and the select of the
-- follower receives these cases.
pub data Round : Type 0 where
  no_session : Round
  won : Round
  lost : List Case → Round

-- The number of campaigns, and where the call stands.
pub record Run : Type 0 where
  pub campaigns : ℕ
  pub ending : Ending

abbrev campaigned : Run → Run
campaigned r = record r { campaigns = suc r.campaigns }

-- The outer loop. An inner loop that was left is the end of a round.
unfoldable pub run_election : List Round → Exec Run
unfolding follow_loop
run_election [] = ok (record { campaigns = 0; ending = waits })
run_election (no_session ∷ rounds) = ok (record { campaigns = 0; ending = returned })
run_election (won ∷ rounds) = run_election rounds >>= λ r. ok (campaigned r)
run_election (lost cases ∷ rounds) = follow_loop cases >>= λ ending. elim ending [
  | waits ↦ ok (record { campaigns = 1; ending = waits })
  | left ↦ run_election rounds >>= λ r. ok (campaigned r)
  | returned ↦ ok (record { campaigns = 1; ending = returned })
]

-- The inner loop is not left.
data Stays : Exec Ending → Type 0 where
  still_waits : Stays (ok waits)
  is_back : Stays (ok returned)
  panicked : Stays panic

follow_loop-Stays : (cases : List Case) → Stays (follow_loop cases)
unfolding follow_loop follow_case end_select
follow_loop-Stays [] = still_waits
follow_loop-Stays (ctx_done ∷ cases) = is_back
follow_loop-Stays (channel_closed ∷ cases) = follow_loop-Stays cases
follow_loop-Stays (response [] ∷ cases) = panicked
follow_loop-Stays (response (_ ∷ _) ∷ cases) = follow_loop-Stays cases

with_campaigns : ℕ → Exec Ending → Exec Run
with_campaigns n run = run >>= λ ending. ok (record { campaigns = n; ending = ending })

-- A round that is lost.
lost_round :
    (cases : List Case) (rounds : List Round) (run : Exec Ending)
    → Stays run
    → follow_loop cases ≡ run
    → run_election (lost cases ∷ rounds) ≡ with_campaigns 1 run
unfolding run_election with_campaigns
lost_round cases rounds _ still_waits h = rw h
lost_round cases rounds _ is_back h = rw h
lost_round cases rounds _ panicked h = rw h

one_more :
    (n : ℕ) (run : Exec Ending)
    → (with_campaigns n run >>= λ r. ok (campaigned r)) ≡ with_campaigns (suc n) run
unfolding with_campaigns
one_more n (ok _) = refl
one_more n panic = refl
one_more n no_fuel = refl

won_rounds :
    (wins : ℕ) (cases : List Case) (rounds : List Round)
    → run_election (replicate wins won ++ lost cases ∷ rounds)
      ≡ with_campaigns (suc wins) (follow_loop cases)
unfolding run_election
won_rounds zero cases rounds =
    lost_round cases rounds (follow_loop cases) (follow_loop-Stays cases) refl
won_rounds (suc wins) cases rounds =
    ap (λ (run : Exec Run). run >>= λ r. ok (campaigned r)) (won_rounds wins cases rounds)
    ∙ one_more (suc wins) (follow_loop cases)

-- The context is not done, and every response has a pair.
unfoldable pub is_open : Case → Bool
is_open ctx_done = false
is_open channel_closed = true
is_open (response []) = false
is_open (response (_ ∷ _)) = true

unfoldable pub all_open : List Case → Bool
unfolding is_open
all_open [] = true
all_open (c ∷ cases) = is_open c && all_open cases

open_waits : (cases : List Case) → all_open cases ≡ true → follow_loop cases ≡ ok waits
unfolding follow_loop follow_case end_select all_open is_open
open_waits [] h = refl
open_waits (ctx_done ∷ cases) h = absurd (ground (arith, h))
open_waits (channel_closed ∷ cases) h = open_waits cases h
open_waits (response [] ∷ cases) h = absurd (ground (arith, h))
open_waits (response (_ ∷ _) ∷ cases) h = open_waits cases h

open_returns :
    (cases after : List Case)
    → all_open cases ≡ true
    → follow_loop (cases ++ ctx_done ∷ after) ≡ ok returned
unfolding follow_loop follow_case end_select all_open is_open
open_returns [] after h = refl
open_returns (ctx_done ∷ cases) after h = absurd (ground (arith, h))
open_returns (channel_closed ∷ cases) after h = open_returns cases after h
open_returns (response [] ∷ cases) after h = absurd (ground (arith, h))
open_returns (response (_ ∷ _) ∷ cases) after h = open_returns cases after h

-- After some campaigns that were won and one that was lost, `RunElection` campaigns no more, whatever
-- the rounds after that would bring: while the context is not done and no response comes without
-- pairs, it waits in the loop of the follower, even if the channel of responses is closed; once the
-- context is done, it returns.
pub run_election-lost :
    (wins : ℕ) (cases after : List Case) (rounds : List Round)
    → all_open cases ≡ true
    → (run_election (replicate wins won ++ lost cases ∷ rounds)
        ≡ ok (record { campaigns = suc wins; ending = waits }))
      × (run_election (replicate wins won ++ lost (cases ++ ctx_done ∷ after) ∷ rounds)
          ≡ ok (record { campaigns = suc wins; ending = returned }))
unfolding with_campaigns
run_election-lost wins cases after rounds h = (
  won_rounds wins cases rounds ∙ rw (open_waits cases h),
  won_rounds wins (cases ++ ctx_done ∷ after) rounds ∙ rw (open_returns cases after h),
)

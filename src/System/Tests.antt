-- ===== src/System/Tests.antt =====
-- The theorems on runs, at a run of two operations.
use authlane.Prelude.{◌≡◌, refl, String, true, some, List, [], ◌∷◌}
use authlane.Store.Tables.{Connection}
use authlane.Flow.Types.{FlowState, FlowEnvironment, state_of}
use authlane.Flow.Authorize.{authorize}
use authlane.Flow.Callback.{callback}
use authlane.Flow.Binding.{distinct_ids}
use authlane.Flow.Samples.{environment, start, request, query}
use authlane.System.Life.{User, life, Operation, asks, calls_back, Moves, IsSound}
use authlane.System.Moves.{called_id}
use authlane.System.Frames.{asker}
use authlane.System.Steps.{Run, Step}
use authlane.System.Runs.{Run-Moves, Run-IsSound}

abbrev env : FlowEnvironment String
env = environment 1000 "state" 200

abbrev empty : FlowState String
empty = record start { connections = [] }

abbrev asked : FlowState String
asked = state_of (authorize env (some request) empty)

abbrev after : List Connection
after = (state_of (callback env query asked)).connections

abbrev operations : List Operation
operations = calls_back (called_id env query asked) ∷ asks (asker env (some request) empty) ∷ []

run : Run String [] operations after
run =
    Run.then _ asked (Run.then _ empty Run.here (Step.authorizes env (some request) refl refl refl))
      (Step.redeems env query (λ connections. refl) refl refl)

abbrev user : User
user = record { organization_id = "org"; external_user_id = "u"; service_id = "github" }

Run-Moves_example :
    (distinct_ids after ≡ true) × Moves user (life user []) operations (life user after)
Run-Moves_example = Run-Moves user run refl

Run-IsSound_example : IsSound (life user after)
Run-IsSound_example = Run-IsSound operations after user run

-- ===== src/Coordinators/Tests.antt =====
-- The rollout manager of nano_rl/runtime/coordinators.py with two replicas and three prompts.
use nano_rl.Prelude.{ℕ, zero, suc, String, refl, none, some, [], ◌∷◌}
use nano_rl.Coordinators.{RolloutManager, QueuedPrompt, dispatch_from_backlog}
use nano_rl.Coordinators.Coercing.{Objects, coerce_queued_prompt}
use nano_rl.Coordinators.Coercing.Merging.{Coerced, coerce_queued_prompt-Coerced}
use nano_rl.WeightStore.Values.{Value, text, number, mapping, end, entry}
use nano_rl.Coordinators.Scanning.{IsWellFormed}
use nano_rl.Coordinators.Dispatching.{Dispatched, dispatch_from_backlog-Dispatched}

abbrev prompt : String → QueuedPrompt
prompt words = record { prompt = words; metadata = [] }

abbrev waiting : RolloutManager
waiting = record {
  replica_ids = "r0" ∷ "r1" ∷ [];
  ahead = "r1" ∷ [];
  max_in_flight_per_replica = 1;
  input_backlog = prompt "a" ∷ prompt "b" ∷ prompt "c" ∷ [];
  paused_reason = none;
  in_flight = [];
}

abbrev hex : ℕ → String
hex zero = "a0"
hex (suc n) = "b1"

waiting-IsWellFormed : IsWellFormed waiting
waiting-IsWellFormed = record { named = refl; placed = ("r0" ∷ [], refl); known = refl }

dispatch_from_backlog-Dispatched_example :
    Dispatched 1 0 8 (some 2) waiting (dispatch_from_backlog hex 1 4 0 8 (some 2) waiting)
dispatch_from_backlog-Dispatched_example =
    dispatch_from_backlog-Dispatched hex 1 4 0 8 (some 2) waiting refl waiting-IsWellFormed

-- A mapping with an id of its own.
abbrev given : Value
given = mapping (
    entry "prompt" (text "a")
      (entry "id" (number 7) (entry "metadata" (mapping (entry "source" (number 1) end)) end)))

abbrev objects : Objects
objects = record { object = λ v. 5; str = λ v. "7" }

coerce_queued_prompt-Coerced_example : Coerced objects given (coerce_queued_prompt objects given)
coerce_queued_prompt-Coerced_example = coerce_queued_prompt-Coerced objects given

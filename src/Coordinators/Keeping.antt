-- ===== src/Coordinators/Keeping.antt =====
-- Histories of the managers of nano_rl/runtime/coordinators.py: `__init__` and then any calls of the
-- methods that change one.
use mathlib.Core.Path.{subst}
use nano_rl.Prelude.{
  sym, ℕ, ◌≡◌, refl, true, false, Option, Option-cases, List, [], ◌∷◌, ◌++◌, map, ltb, if_rule,
  arith, inl, inr, String,
}
use nano_rl.Prelude.Equality.{contains, string_eq}
use nano_rl.Prelude.Exec.{Result, ok, err}
use nano_rl.Prelude.Dict.{Dict, lookup, erase}
use nano_rl.Slot.Types.{RolloutReplicaSpec}
use nano_rl.Coordinators.{
  RolloutManager, QueuedPrompt, GenerationRequest, CoordinatorError, replica_id_of, create,
  create_with, all_known, enqueue_prompts, pause_for_weight, resume, complete_request,
  dispatch_from_backlog,
}
use nano_rl.Coordinators.Scanning.{IsWellFormed}
use nano_rl.Coordinators.Taking.{dispatch_paused}
use nano_rl.Coordinators.Dispatching.{Dispatched, dispatch_from_backlog-Dispatched}

-- A manager that is made is well formed.
abbrev Made : Result CoordinatorError RolloutManager → Type 0
Made (ok m) = IsWellFormed m
Made (err e) = Unit

create_with-Made :
    (ids : List String) (cap : ℕ) → contains "" ids ≡ false → Made (create_with ids cap)
create_with-Made [] cap h = tt
create_with-Made (i ∷ is) cap h =
    if_rule Made (ltb cap 1) _ _ (λ _. tt)
      (λ _. record { named = h; placed = ([], refl); known = refl })

pub create-IsWellFormed :
    (replicas : List RolloutReplicaSpec) (cap : ℕ)
    → contains "" (map replica_id_of replicas) ≡ false
    → Made (create replicas cap)
unfolding create
create-IsWellFormed replicas cap h = create_with-Made (map replica_id_of replicas) cap h

all_known-erase :
    (ids : List String) (k : String) (d : Dict String GenerationRequest)
    → all_known ids d ≡ true
    → all_known ids (erase k d) ≡ true
unfolding erase
all_known-erase ids k [] h = refl
all_known-erase ids k ((j, q) ∷ d) h = ground (arith, h, all_known-erase ids k d)

enqueue_prompts-IsWellFormed :
    (prompts : List (Result CoordinatorError QueuedPrompt)) (m : RolloutManager)
    → IsWellFormed m
    → IsWellFormed (enqueue_prompts prompts m).1
unfolding enqueue_prompts
enqueue_prompts-IsWellFormed [] m h = h
enqueue_prompts-IsWellFormed (err e ∷ prompts) m h = h
enqueue_prompts-IsWellFormed (ok p ∷ prompts) m h =
    enqueue_prompts-IsWellFormed prompts (record m { input_backlog = m.input_backlog ++ (p ∷ []) })
      (record { named = h.named; placed = h.placed; known = h.known })

complete_request-IsWellFormed :
    (id : String) (m : RolloutManager) → IsWellFormed m → IsWellFormed (complete_request id m).1
unfolding complete_request
complete_request-IsWellFormed id m h = elim (Option-cases (lookup id m.in_flight)) [
  | inl e ↦ rw e h
  | inr (q, e) ↦ rw e (record {
    named = h.named;
    placed = h.placed;
    known = all_known-erase m.replica_ids id m.in_flight h.known;
  })
]

left_by :
    (version depth watermark : ℕ) (limit : Option ℕ) (m : RolloutManager)
    (x : Result CoordinatorError (List GenerationRequest) × RolloutManager)
    → Dispatched version depth watermark limit m x
    → IsWellFormed x.1
left_by version depth watermark limit m (err e, n) h = absurd h
left_by version depth watermark limit m (ok requests, n) (_, _, _, _, _, _, _, _, _, still, _) =
    still

dispatch_from_backlog-IsWellFormed :
    (hexes : ℕ → String) (version step depth watermark : ℕ) (limit : Option ℕ) (m : RolloutManager)
    → IsWellFormed m
    → IsWellFormed (dispatch_from_backlog hexes version step depth watermark limit m).1
dispatch_from_backlog-IsWellFormed hexes version step depth watermark limit m h =
    elim (Option-cases m.paused_reason) [
      | inl e ↦
          left_by version depth watermark limit m _
            (dispatch_from_backlog-Dispatched hexes version step depth watermark limit m e h)
      | inr (reason, e) ↦
          subst (λ x. IsWellFormed x.1)
            (sym (dispatch_paused hexes version step depth watermark limit m reason e)) h
    ]

-- A call of a method.
pub data Call : Type 0 where
  enqueues : List (Result CoordinatorError QueuedPrompt) → Call
  pauses : String → Call
  resumes : Call
  completes : String → Call
  dispatches : (ℕ → String) → ℕ → ℕ → ℕ → ℕ → Option ℕ → Call

abbrev call : Call → RolloutManager → RolloutManager
call (enqueues prompts) m = (enqueue_prompts prompts m).1
call (pauses reason) m = (pause_for_weight reason m).1
call resumes m = (resume m).1
call (completes id) m = (complete_request id m).1
call (dispatches hexes version step depth watermark limit) m =
    (dispatch_from_backlog hexes version step depth watermark limit m).1

call-IsWellFormed : (c : Call) (m : RolloutManager) → IsWellFormed m → IsWellFormed (call c m)
unfolding pause_for_weight resume
call-IsWellFormed (enqueues prompts) m h = enqueue_prompts-IsWellFormed prompts m h
call-IsWellFormed (pauses reason) m h = record {
  named = h.named;
  placed = h.placed;
  known = h.known;
}
call-IsWellFormed resumes m h = record { named = h.named; placed = h.placed; known = h.known }
call-IsWellFormed (completes id) m h = complete_request-IsWellFormed id m h
call-IsWellFormed (dispatches hexes version step depth watermark limit) m h =
    dispatch_from_backlog-IsWellFormed hexes version step depth watermark limit m h

abbrev calls : List Call → RolloutManager → RolloutManager
calls [] m = m
calls (c ∷ cs) m = calls cs (call c m)

-- Whatever is called, a well-formed manager stays well formed.
pub calls-IsWellFormed :
    (cs : List Call) (m : RolloutManager) → IsWellFormed m → IsWellFormed (calls cs m)
calls-IsWellFormed [] m h = h
calls-IsWellFormed (c ∷ cs) m h = calls-IsWellFormed cs (call c m) (call-IsWellFormed c m h)

-- ===== src/Coordinators/Taking.antt =====
-- How many prompts `dispatch_from_backlog` of nano_rl/runtime/coordinators.py takes.
use mathlib.Core.Path.{subst}
use nano_rl.Prelude.{
  ℕ, zero, suc, ◌+◌, ◌≤◌, String, ◌≡◌, refl, sym, ap, ◌∙◌, Bool, true, false, Option, none, some,
  List, [], ◌∷◌, length, ltb, leb, if_rule, arith, Option-cases, Bool-cases, if◌then◌else◌, inl,
  inr,
}
use nano_rl.Prelude.Equality.{string_eq, ◌==◌}
use nano_rl.Prelude.Exec.{Result, ok, err}
use nano_rl.Prelude.Dict.{Dict}
use nano_rl.Coordinators.{
  RolloutManager, QueuedPrompt, GenerationRequest, CoordinatorError, paused_for, request_budget,
  step_cycle, next_replica, pick, load, all_known, schedulable_loop, schedulable,
  next_schedulable_replica, request_of, start, cons_ok, or_next, build_with, pop_prompt, round_with,
  dispatch_loop, dispatch_from_backlog,
}

pub dispatch_paused :
    (hexes : ℕ → String) (version step depth watermark : ℕ) (limit : Option ℕ) (m : RolloutManager)
    (reason : String)
    → m.paused_reason ≡ some reason
    → dispatch_from_backlog hexes version step depth watermark limit m
      ≡ (err (paused_for reason), m)
unfolding dispatch_from_backlog
dispatch_paused hexes version step depth watermark limit m reason e = simp e

pub dispatch_running :
    (hexes : ℕ → String) (version step depth watermark : ℕ) (limit : Option ℕ) (m : RolloutManager)
    → m.paused_reason ≡ none
    → dispatch_from_backlog hexes version step depth watermark limit m ≡ (
        if leb watermark depth
        then (ok [], m)
        else dispatch_loop (request_budget m depth watermark limit) hexes version step m)
unfolding dispatch_from_backlog
dispatch_running hexes version step depth watermark limit m e =
    elim (Bool-cases (leb watermark depth)) [
      | inl full ↦ simp (e, full) refl
      | inr room ↦ simp (e, room) refl
    ]

-- At most the caller's limit.
abbrev pub Within : Option ℕ → ℕ → Type 0
Within none n = Unit
Within (some limit) n = n ≤ limit

-- How many requests, for a backlog of this length.
abbrev pub Taken :
    Option ℕ
    → RolloutManager
    → Result CoordinatorError (List GenerationRequest) × RolloutManager
    → Type 0
Taken limit m (ok requests, n) =
    (length m.input_backlog ≡ length requests + length n.input_backlog)
    × Within limit (length requests)
Taken limit m (err e, n) = Unit

-- The same, for rounds.
abbrev Popped :
    ℕ → RolloutManager → Result CoordinatorError (List GenerationRequest) × RolloutManager → Type 0
Popped left m (ok requests, n) =
    (length m.input_backlog ≡ length requests + length n.input_backlog) × (length requests ≤ left)
Popped left m (err e, n) = Unit

step_cycle_backlog :
    (xs ids : List String) (m : RolloutManager)
    → (step_cycle xs ids m).1.input_backlog ≡ m.input_backlog
step_cycle_backlog (x ∷ xs) ids m = refl
step_cycle_backlog [] (i ∷ ids) m = refl
step_cycle_backlog [] [] m = refl

next_replica_backlog : (m : RolloutManager) → (next_replica m).1.input_backlog ≡ m.input_backlog
unfolding next_replica
next_replica_backlog m = step_cycle_backlog m.ahead m.replica_ids m

pick_backlog :
    (d : Dict String GenerationRequest) (x y : Option String × RolloutManager)
    → y.1.input_backlog ≡ x.1.input_backlog
    → (pick d x y).1.input_backlog ≡ x.1.input_backlog
pick_backlog d (none, n) y e = refl
pick_backlog d (some r, n) y e =
    if_rule (λ (z : Option String × RolloutManager). z.1.input_backlog ≡ n.input_backlog)
      (ltb (load r d) n.max_in_flight_per_replica) _ _ (λ _. refl) (λ _. e)

schedulable_loop_backlog :
    (ids : List String) (d : Dict String GenerationRequest) (m : RolloutManager)
    → (schedulable_loop ids d m).1.input_backlog ≡ m.input_backlog
unfolding schedulable_loop
schedulable_loop_backlog [] d m = refl
schedulable_loop_backlog (i ∷ ids) d m =
    pick_backlog d (next_replica m) _ (schedulable_loop_backlog ids d (next_replica m).1)
    ∙ next_replica_backlog m

schedulable_backlog :
    (b : Bool) (m : RolloutManager) → (schedulable b m).1.input_backlog ≡ m.input_backlog
schedulable_backlog false m = refl
schedulable_backlog true m = schedulable_loop_backlog m.replica_ids m.in_flight m

or_next_backlog :
    (r : String) (m : RolloutManager) → (or_next r m).1.input_backlog ≡ m.input_backlog
or_next_backlog r m =
    if_rule (λ (z : Option String × RolloutManager). z.1.input_backlog ≡ m.input_backlog) (r == "")
      _ _ (λ _. next_replica_backlog m) (λ _. refl)

cons-Popped :
    (left : ℕ) (m n : RolloutManager) (prompt : QueuedPrompt) (rest : List QueuedPrompt)
    (request : GenerationRequest)
    (x : Result CoordinatorError (List GenerationRequest) × RolloutManager)
    → m.input_backlog ≡ prompt ∷ rest
    → n.input_backlog ≡ rest
    → Popped left n x
    → Popped (suc left) m (cons_ok request x.0, x.1)
cons-Popped left m n prompt rest request (ok rs, k) b e (l, few) =
    (rw b (omega (arith, l, ap length e)), omega (arith, few))
cons-Popped left m n prompt rest request (err e, k) b q h = tt

module _ (version step left : ℕ) (hex : String) (m : RolloutManager)
    (later : RolloutManager → Result CoordinatorError (List GenerationRequest) × RolloutManager)
    (rounds : (n : RolloutManager) → Popped left n (later n)) where
  build-Popped :
      (prompt : QueuedPrompt) (rest : List QueuedPrompt) (x : Option String × RolloutManager)
      → m.input_backlog ≡ prompt ∷ rest
      → x.1.input_backlog ≡ rest
      → Popped (suc left) m (build_with prompt hex version step later x)
  build-Popped prompt rest (none, n) b e = tt
  build-Popped prompt rest (some r, n) b e =
      let request = request_of prompt version step hex r in
      cons-Popped left m (start request n) prompt rest request (later (start request n)) b e
        (rounds (start request n))

  abbrev build :
      String
      → QueuedPrompt
      → RolloutManager
      → Result CoordinatorError (List GenerationRequest) × RolloutManager
  build r prompt n = build_with prompt hex version step later (or_next r n)

  pop-Popped :
      (r : String) (prompts : List QueuedPrompt) (n : RolloutManager)
      → m.input_backlog ≡ prompts
      → Popped (suc left) m (pop_prompt (build r) prompts n)
  pop-Popped r [] n b = tt
  pop-Popped r (prompt ∷ rest) n b =
      build-Popped prompt rest (or_next r (record n { input_backlog = rest })) b
        (or_next_backlog r (record n { input_backlog = rest }))

  round-Popped :
      (x : Result CoordinatorError (Option String) × RolloutManager)
      → x.1.input_backlog ≡ m.input_backlog
      → Popped (suc left) m (round_with build x)
  round-Popped (err e, n) b = tt
  round-Popped (ok none, n) b = (omega (arith, ap length (sym b)), omega arith)
  round-Popped (ok (some r), n) b = pop-Popped r n.input_backlog n (sym b)

dispatch_loop-Popped :
    (left : ℕ) (hexes : ℕ → String) (version step : ℕ) (m : RolloutManager)
    → Popped left m (dispatch_loop left hexes version step m)
unfolding dispatch_loop next_schedulable_replica
dispatch_loop-Popped zero hexes version step m = (omega arith, omega arith)
dispatch_loop-Popped (suc left) hexes version step m =
    round-Popped version step left (hexes left) m (dispatch_loop left hexes version step)
      (λ n. dispatch_loop-Popped left hexes version step n) (next_schedulable_replica m)
      (schedulable_backlog (all_known m.replica_ids m.in_flight) m)

Popped-Taken :
    (depth watermark : ℕ) (limit : Option ℕ) (m : RolloutManager)
    (x : Result CoordinatorError (List GenerationRequest) × RolloutManager)
    → Popped (request_budget m depth watermark limit) m x
    → Taken limit m x
Popped-Taken depth watermark none m (ok requests, n) (l, few) = (l, tt)
Popped-Taken depth watermark (some limit) m (ok requests, n) (l, few) = (l, omega (arith, few))
Popped-Taken depth watermark limit m (err e, n) h = tt

nothing-Taken : (limit : Option ℕ) (m : RolloutManager) → Taken limit m (ok [], m)
nothing-Taken none m = (omega arith, tt)
nothing-Taken (some limit) m = (omega arith, omega arith)

pub dispatch_from_backlog-Taken :
    (hexes : ℕ → String) (version step depth watermark : ℕ) (limit : Option ℕ) (m : RolloutManager)
    → Taken limit m (dispatch_from_backlog hexes version step depth watermark limit m)
dispatch_from_backlog-Taken hexes version step depth watermark limit m =
    elim (Option-cases m.paused_reason) [
      | inl e ↦
          subst (Taken limit m)
            (sym (dispatch_running hexes version step depth watermark limit m e))
            (if_rule (Taken limit m) (leb watermark depth) _ _ (λ _. nothing-Taken limit m)
              (λ _. Popped-Taken depth watermark limit m _ (
                dispatch_loop-Popped (request_budget m depth watermark limit) hexes version step
                  m)))
      | inr (reason, e) ↦
          subst (Taken limit m)
            (sym (dispatch_paused hexes version step depth watermark limit m reason e)) tt
    ]

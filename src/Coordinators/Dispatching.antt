-- ===== src/Coordinators/Dispatching.antt =====
-- What `dispatch_from_backlog` of nano_rl/runtime/coordinators.py hands out.
use mathlib.Core.Path.{subst}
use nano_rl.Prelude.{
  sym, ℕ, ◌+◌, ◌-◌, ◌*◌, ◌≤◌, ◌<◌, min, String, ◌≡◌, refl, ◌⊎◌, true, Option, none, some, List, [],
  ◌++◌, map, length, leb, arith, All, Bool-cases, if_rule, inl, inr,
}
use nano_rl.Prelude.Equality.{nat_eq, string_eq, ◌==◌}
use nano_rl.Prelude.Exec.{Result, ok, err}
use nano_rl.Coordinators.{
  RolloutManager, GenerationRequest, CoordinatorError, load, max_in_flight, min_with,
  request_budget, dispatch_from_backlog,
}
use nano_rl.Coordinators.Taking.{Within, dispatch_running}
use nano_rl.Coordinators.Scanning.{IsWellFormed, AllFull}
use nano_rl.Coordinators.Handing.{prompt_of, answered, IsFor, Handing, dispatch_loop-Handing}

-- The caller's limit is reached.
abbrev pub Reached : Option ℕ → ℕ → Type 0
Reached none n = ⊥
Reached (some limit) n = limit ≤ n

-- What `dispatch_from_backlog` hands out: no more requests than the queue has room for, the replicas have
-- room for in all, and the caller allows; and no fewer than one of these says, than the backlog has
-- prompts or than the replicas can take.
abbrev pub Dispatched :
    ℕ
    → ℕ
    → ℕ
    → Option ℕ
    → RolloutManager
    → Result CoordinatorError (List GenerationRequest) × RolloutManager
    → Type 0
Dispatched version depth watermark limit m (err e, n) = ⊥
Dispatched version depth watermark limit m (ok requests, n) =
    (map prompt_of m.input_backlog ≡ map answered requests ++ map prompt_of n.input_backlog)
    × All (IsFor version m.replica_ids) requests
    × (length requests ≤ watermark - depth)
    × (length requests ≤ length m.replica_ids * m.max_in_flight_per_replica - length m.in_flight)
    × Within limit (length requests)
    × ((r : String)
        → load r m.in_flight ≤ m.max_in_flight_per_replica
        → load r n.in_flight ≤ m.max_in_flight_per_replica)
    × (length n.in_flight ≤ length m.in_flight + length requests)
    × (n.replica_ids ≡ m.replica_ids)
    × (n.max_in_flight_per_replica ≡ m.max_in_flight_per_replica)
    × IsWellFormed n
    × ((watermark ≤ depth + length requests)
        ⊎ (length m.replica_ids * m.max_in_flight_per_replica
            ≤ length m.in_flight + length requests)
        ⊎ (length requests ≡ length m.input_backlog)
        ⊎ Reached limit (length requests)
        ⊎ AllFull n)

-- Why a minimum is no more than it is.
why_least :
    (queue replicas prompts : ℕ) (limit : Option ℕ) (k : ℕ)
    → k ≡ min_with (min queue (min replicas prompts)) limit
    → (queue ≤ k) ⊎ (replicas ≤ k) ⊎ (k ≡ prompts) ⊎ Reached limit k
why_least queue replicas prompts limit k e = elim (Bool-cases (leb queue k)) [
  | inl q ↦ inl (ground (arith, q))
  | inr q ↦ elim (Bool-cases (leb replicas k)) [
    | inl r ↦ inr (inl (ground (arith, r)))
    | inr r ↦ elim (Bool-cases (k == prompts)) [
      | inl p ↦ inr (inr (inl ((nat_eq.test_iff k prompts).0 p)))
      | inr p ↦ inr (
          inr (
            inr (
              by_limit limit e (ground (arith, q)) (ground (arith, r))
                (λ f. let t = (nat_eq.test_iff k prompts).1 f in absurd (ground (arith, t, p))))))
    ]
  ]
]
  where
    by_limit :
        (limit : Option ℕ)
        → k ≡ min_with (min queue (min replicas prompts)) limit
        → k < queue
        → k < replicas
        → ¬ (k ≡ prompts)
        → Reached limit k
    by_limit none e q r p = p (omega (arith, e, q, r))
    by_limit (some l) e q r p = elim (Bool-cases (leb l k)) [
      | inl h ↦ ground (arith, h)
      | inr h ↦ let less : k < l = ground (arith, h) in absurd (p (omega (arith, e, q, r, less)))
    ]

at_most-Budgeted :
    (queue replicas prompts : ℕ) (limit : Option ℕ) (k : ℕ)
    → k ≤ min_with (min queue (min replicas prompts)) limit
    → (k ≤ queue) × (k ≤ replicas) × Within limit k
at_most-Budgeted queue replicas prompts none k h = (omega (arith, h), omega (arith, h), tt)
at_most-Budgeted queue replicas prompts (some l) k h =
    (omega (arith, h), omega (arith, h), omega (arith, h))

room_left : (whole part k : ℕ) → whole - part ≤ k → whole ≤ part + k
room_left whole part k h = omega (arith, h)

-- Why the rounds end, from the number of rounds.
stopped :
    (watermark depth : ℕ) (limit : Option ℕ) (m n : RolloutManager) (k : ℕ)
    → (k ≡ request_budget m depth watermark limit) ⊎ AllFull n
    → (watermark ≤ depth + k)
      ⊎ (length m.replica_ids * m.max_in_flight_per_replica ≤ length m.in_flight + k)
      ⊎ (k ≡ length m.input_backlog)
      ⊎ Reached limit k
      ⊎ AllFull n
stopped watermark depth limit m n k (inr full) = inr (inr (inr (inr full)))
stopped watermark depth limit m n k (inl e) =
    elim (why_least (watermark - depth) (max_in_flight m - length m.in_flight)
      (length m.input_backlog) limit k e) [
        | inl h ↦ inl (room_left watermark depth k h)
        | inr (inl h) ↦ inr (inl (room_left (max_in_flight m) (length m.in_flight) k h))
        | inr (inr (inl h)) ↦ inr (inr (inl h))
        | inr (inr (inr h)) ↦ inr (inr (inr (inl h)))
      ]

Handing-Dispatched :
    (version depth watermark : ℕ) (limit : Option ℕ) (m : RolloutManager)
    (x : Result CoordinatorError (List GenerationRequest) × RolloutManager)
    → Handing version (request_budget m depth watermark limit) m x
    → Dispatched version depth watermark limit m x
Handing-Dispatched version depth watermark limit m (err e, n) h = h
Handing-Dispatched version depth watermark limit m (ok requests, n) h =
    let (queue, replicas, within) =
      at_most-Budgeted (watermark - depth) (max_in_flight m - length m.in_flight)
        (length m.input_backlog) limit (length requests) h.at_most in
    (
      h.in_order,
      h.addressed,
      queue,
      replicas,
      within,
      h.within,
      h.started,
      h.same_ids,
      h.same_limit,
      h.still,
      stopped watermark depth limit m n (length requests) h.all_or_full,
    )

-- A queue without room.
full-Dispatched :
    (version depth watermark : ℕ) (limit : Option ℕ) (m : RolloutManager)
    → IsWellFormed m
    → leb watermark depth ≡ true
    → Dispatched version depth watermark limit m (ok [], m)
full-Dispatched version depth watermark limit m h full = (
  refl,
  tt,
  omega arith,
  omega arith,
  nothing_within limit,
  λ r below. below,
  omega arith,
  refl,
  refl,
  h,
  inl (ground (arith, full)),
)
  where
    nothing_within : (limit : Option ℕ) → Within limit 0
    nothing_within none = tt
    nothing_within (some l) = omega arith

budget-fits :
    (m : RolloutManager) (depth watermark : ℕ) (limit : Option ℕ)
    → request_budget m depth watermark limit ≤ length m.input_backlog
budget-fits m depth watermark none = omega arith
budget-fits m depth watermark (some n) = omega arith

-- `dispatch_from_backlog` on a manager that is not paused, whose replica ids are not empty, whose cycle
-- stands among them and whose requests in flight are of its replicas, raises nothing and leaves such a
-- manager, with the same replicas and limit. The requests carry the prompts from the front of the
-- backlog in order and the target version, the other prompts stay, and each is for one of the
-- replicas. There are no more requests than the queue has room for below its watermark, than the
-- replicas have room for in all, and than the caller allows; no replica that was within its limit of
-- requests in flight goes beyond it. And there are as many as one of these allows or as there were
-- prompts, unless in the end every replica has as many in flight as it may.
pub dispatch_from_backlog-Dispatched :
    (hexes : ℕ → String) (version step depth watermark : ℕ) (limit : Option ℕ) (m : RolloutManager)
    → m.paused_reason ≡ none
    → IsWellFormed m
    → Dispatched version depth watermark limit m
        (dispatch_from_backlog hexes version step depth watermark limit m)
dispatch_from_backlog-Dispatched hexes version step depth watermark limit m running h =
    subst (Dispatched version depth watermark limit m)
      (sym (dispatch_running hexes version step depth watermark limit m running))
      (if_rule (Dispatched version depth watermark limit m) (leb watermark depth) _ _
        (full-Dispatched version depth watermark limit m h)
        (λ _. Handing-Dispatched version depth watermark limit m _ (
          dispatch_loop-Handing (request_budget m depth watermark limit) hexes version step m h
            (budget-fits m depth watermark limit))))

-- ===== src/Coordinators/Handing.antt =====
-- What the rounds of `dispatch_from_backlog` of nano_rl/runtime/coordinators.py hand out.
use mathlib.Core.Path.{subst}
use nano_rl.Prelude.{
  sym, ℕ, zero, suc, ◌+◌, ◌≤◌, ◌<◌, String, ◌≡◌, refl, ap, ◌⊎◌, true, false, Option, none, some,
  List, [], ◌∷◌, ◌++◌, map, length, arith, All, Bool-cases, inl, inr,
}
use nano_rl.Prelude.Equality.{contains, nat_eq, string_eq, ◌==◌}
use nano_rl.Prelude.Exec.{Result, ok, err}
use nano_rl.Prelude.Dict.{Dict, insert, length-insert, total}
use nano_rl.Coordinators.{
  RolloutManager, cons_ok, QueuedPrompt, GenerationRequest, CoordinatorError, load, on_replica,
  all_known, next_schedulable_replica, request_of, or_next, build_with, pop_prompt, round_with,
  dispatch_loop,
}
use nano_rl.Coordinators.Scanning.{
  IsPlaced, IsWellFormed, AllFull, Schedules, next_schedulable_replica-Schedules,
}

total-insert_le :
    {V : Type 0} (w : V → ℕ) (k : String) (v : V) (d : Dict String V)
    → total w (insert k v d) ≤ total w d + w v
unfolding total insert
total-insert_le w k v [] = omega arith
total-insert_le w k v ((i, u) ∷ d) = ground (arith, total-insert_le w k v d)

List-cases : {A : Type 0} (xs : List A) → (xs ≡ []) ⊎ ((x : A) × (ys : List A) × (xs ≡ x ∷ ys))
List-cases [] = inl refl
List-cases (x ∷ xs) = inr (x, xs, refl)

abbrev pub prompt_of : QueuedPrompt → String
prompt_of p = p.prompt

abbrev pub answered : GenerationRequest → String
answered r = r.prompt

started-load :
    (r : String) (request : GenerationRequest) (d : Dict String GenerationRequest) (cap : ℕ)
    → load request.replica_id d < cap
    → load r d ≤ cap
    → load r (insert request.request_id request d) ≤ cap
started-load r request d cap h k = ground (
  arith,
  total-insert_le (on_replica r) request.request_id request d,
  string_eq.test_iff request.replica_id r,
)

all_known-insert :
    (ids : List String) (k : String) (request : GenerationRequest)
    (d : Dict String GenerationRequest)
    → contains request.replica_id ids ≡ true
    → all_known ids d ≡ true
    → all_known ids (insert k request d) ≡ true
unfolding insert
all_known-insert ids k request [] c h = ground (arith, c)
all_known-insert ids k request ((j, q) ∷ d) c h =
    ground (arith, c, h, all_known-insert ids k request d c)

-- A request of this version, for one of the replicas.
abbrev pub IsFor : ℕ → List String → GenerationRequest → Type 0
IsFor version ids q = (q.target_policy_version ≡ version) × (contains q.replica_id ids ≡ true)

-- What a number of rounds hands out: the prompts from the front of the backlog, in order, while the rest
-- stays in the backlog; to replicas of the manager, none of which goes beyond its limit; and as many
-- as there are rounds, unless every replica is full in the end.
pub record Handed (version left : ℕ) (m n : RolloutManager) (requests : List GenerationRequest)
    : Type 0 where
  pub in_order :
      map prompt_of m.input_backlog ≡ map answered requests ++ map prompt_of n.input_backlog
  pub at_most : length requests ≤ left
  pub same_ids : n.replica_ids ≡ m.replica_ids
  pub same_limit : n.max_in_flight_per_replica ≡ m.max_in_flight_per_replica
  pub still : IsWellFormed n
  pub addressed : All (IsFor version m.replica_ids) requests
  pub within :
      (r : String)
      → load r m.in_flight ≤ m.max_in_flight_per_replica
      → load r n.in_flight ≤ m.max_in_flight_per_replica
  pub started : length n.in_flight ≤ length m.in_flight + length requests
  pub all_or_full : (length requests ≡ left) ⊎ AllFull n

abbrev pub Handing :
    ℕ
    → ℕ
    → RolloutManager
    → Result CoordinatorError (List GenerationRequest) × RolloutManager
    → Type 0
Handing version left m (ok requests, n) = Handed version left m n requests
Handing version left m (err e, n) = ⊥

-- No round, or one that finds every replica full.
nothing-Handed :
    (version left : ℕ) (m : RolloutManager) (ahead : List String)
    → IsWellFormed m
    → IsPlaced m.replica_ids ahead
    → (0 ≡ left) ⊎ AllFull m
    → Handed version left m (record m { ahead = ahead }) []
nothing-Handed version left m ahead h placed why = record {
  in_order = refl;
  at_most = omega arith;
  same_ids = refl;
  same_limit = refl;
  still = record { named = h.named; placed = placed; known = h.known };
  addressed = tt;
  within = λ r below. below;
  started = omega arith;
  all_or_full = why;
}

-- The manager after a round.
abbrev after : RolloutManager → List String → List QueuedPrompt → GenerationRequest → RolloutManager
after m ahead rest request = record m {
  ahead = ahead;
  input_backlog = rest;
  in_flight = insert request.request_id request m.in_flight;
}

after-IsWellFormed :
    (m : RolloutManager) (ahead : List String) (rest : List QueuedPrompt)
    (request : GenerationRequest)
    → IsWellFormed m
    → IsPlaced m.replica_ids ahead
    → contains request.replica_id m.replica_ids ≡ true
    → IsWellFormed (after m ahead rest request)
after-IsWellFormed m ahead rest request h placed listed = record {
  named = h.named;
  placed = placed;
  known = all_known-insert m.replica_ids request.request_id request m.in_flight listed h.known;
}

-- A round that builds a request, and the rounds after it.
cons-Handing :
    (version left : ℕ) (m : RolloutManager) (ahead : List String) (p : QueuedPrompt)
    (ps : List QueuedPrompt) (request : GenerationRequest)
    (x : Result CoordinatorError (List GenerationRequest) × RolloutManager)
    → m.input_backlog ≡ p ∷ ps
    → request.prompt ≡ p.prompt
    → IsFor version m.replica_ids request
    → load request.replica_id m.in_flight < m.max_in_flight_per_replica
    → Handing version left (after m ahead ps request) x
    → Handing version (suc left) m (cons_ok request x.0, x.1)
cons-Handing version left m ahead p ps request (err e, k) b q for room h = absurd h
cons-Handing version left m ahead p ps request (ok rs, k) b q for room h = record {
  in_order = rw (b, q) (ap (λ xs. p.prompt ∷ xs) h.in_order);
  at_most = omega (arith, h.at_most);
  same_ids = h.same_ids;
  same_limit = h.same_limit;
  still = h.still;
  addressed = (for, h.addressed);
  within = λ r below.
      h.within r (started-load r request m.in_flight m.max_in_flight_per_replica room below);
  started = ground (arith, h.started, length-insert request.request_id request m.in_flight);
  all_or_full = elim h.all_or_full [ inl e ↦ inl (ap suc e) | inr full ↦ inr full ];
}

-- An id that is not empty stays.
or_next-named :
    (ids : List String) (r : String) (m : RolloutManager)
    → contains "" ids ≡ false
    → contains r ids ≡ true
    → or_next r m ≡ (some r, m)
or_next-named ids r m named listed = elim (Bool-cases (r == "")) [
  | inl e ↦
      let blank : contains r ids ≡ contains "" ids =
        ap (λ s. contains s ids) ((string_eq.test_iff r "").0 e) in
      absurd (ground (arith, blank, named, listed))
  | inr e ↦ rw e refl
]

module _ (hexes : ℕ → String) (version step left : ℕ) (m : RolloutManager) (h : IsWellFormed m)
    (enough : suc left ≤ length m.input_backlog)
    (rounds : (n : RolloutManager)
      → IsWellFormed n
      → left ≤ length n.input_backlog
      → Handing version left n (dispatch_loop left hexes version step n)) where
  abbrev build :
      String
      → QueuedPrompt
      → RolloutManager
      → Result CoordinatorError (List GenerationRequest) × RolloutManager
  build r prompt n =
      build_with prompt (hexes left) version step (dispatch_loop left hexes version step)
        (or_next r n)

  pop-Handing :
      (r : String) (ahead : List String)
      → IsPlaced m.replica_ids ahead
      → contains r m.replica_ids ≡ true
      → load r m.in_flight < m.max_in_flight_per_replica
      → Handing version
          (suc left)
          m
          (pop_prompt (build r) m.input_backlog (record m { ahead = ahead }))
  pop-Handing r ahead placed listed room = elim (List-cases m.input_backlog) [
    | inl b ↦ absurd (ground (arith, enough, b))
    | inr (p, ps, b) ↦
        let n = record m { ahead = ahead; input_backlog = ps } in
        let request = request_of p version step (hexes left) r in
        let later = dispatch_loop left hexes version step in
        subst
          (λ xs.
            Handing version (suc left) m (pop_prompt (build r) xs (record m { ahead = ahead })))
          (sym b)
          (subst
            (λ y. Handing version (suc left) m (build_with p (hexes left) version step later y))
            (sym (or_next-named m.replica_ids r n h.named listed))
            (cons-Handing version left m ahead p ps request (later (after m ahead ps request)) b
              refl (refl, listed) room
              (rounds (after m ahead ps request)
                (after-IsWellFormed m ahead ps request h placed listed)
                (ground (arith, enough, b)))))
  ]

  round-Handing :
      (x : Result CoordinatorError (Option String) × RolloutManager)
      → Schedules m x
      → Handing version (suc left) m (round_with build x)
  round-Handing (err e, n) s = absurd s
  round-Handing (ok none, n) (moved, placed, full) =
      subst (λ k. Handing version (suc left) m (ok [], k)) (sym moved)
        (nothing-Handed version (suc left) m n.ahead h placed (inr full))
  round-Handing (ok (some r), n) (moved, placed, listed, room) =
      subst (λ k. Handing version (suc left) m (pop_prompt (build r) k.input_backlog k)) (sym moved)
        (pop-Handing r n.ahead placed listed room)

pub dispatch_loop-Handing :
    (left : ℕ) (hexes : ℕ → String) (version step : ℕ) (m : RolloutManager)
    → IsWellFormed m
    → left ≤ length m.input_backlog
    → Handing version left m (dispatch_loop left hexes version step m)
unfolding dispatch_loop
dispatch_loop-Handing zero hexes version step m h enough =
    nothing-Handed version zero m m.ahead h h.placed (inl refl)
dispatch_loop-Handing (suc left) hexes version step m h enough =
    round-Handing hexes version step left m h enough
      (λ n. dispatch_loop-Handing left hexes version step n) (next_schedulable_replica m)
      (next_schedulable_replica-Schedules m h)

-- ===== src/Coordinators/Scanning.antt =====
-- What `_next_schedulable_replica` of nano_rl/runtime/coordinators.py finds.
use nano_rl.Prelude.{
  ℕ, zero, suc, ◌+◌, ◌≤◌, ◌<◌, String, ◌≡◌, refl, sym, ap, ◌∙◌, true, false, Option, none, some,
  List, [], ◌∷◌, ◌++◌, length, length-append, ltb, All, All-append, if_rule, arith, inl, inr,
  Bool-cases,
}
use mathlib.Core.Path.{subst}
use nano_rl.Prelude.Equality.{contains, contains-append, string_eq, ◌==◌}
use nano_rl.Prelude.Exec.{Result, ok, err}
use nano_rl.Prelude.Dict.{Dict}
use nano_rl.Coordinators.{
  RolloutManager, GenerationRequest, CoordinatorError, load, all_known, next_replica,
  schedulable_loop, schedulable, next_schedulable_replica,
}

-- The cycle stands somewhere in the ids.
abbrev pub IsPlaced : List String → List String → Type 0
IsPlaced ids ahead = (used : List String) × (ids ≡ used ++ ahead)

append_cons : (xs ys : List String) (x : String) → xs ++ (x ∷ ys) ≡ (xs ++ (x ∷ [])) ++ ys
append_cons [] ys x = refl
append_cons (y ∷ xs) ys x = ap (λ zs. y ∷ zs) (append_cons xs ys x)

next-IsPlaced : (ids xs : List String) (x : String) → IsPlaced ids (x ∷ xs) → IsPlaced ids xs
next-IsPlaced ids xs x (used, e) = (used ++ (x ∷ []), e ∙ append_cons used xs x)

IsPlaced-contains :
    (ids xs : List String) (x : String) → IsPlaced ids (x ∷ xs) → contains x ids ≡ true
IsPlaced-contains ids xs x (used, e) =
    ap (contains x) e ∙ ground (arith, contains-append x used (x ∷ xs), string_eq.test_iff x x)

-- The replicas that so many steps of the cycle meet.
visits : ℕ → List String → List String → List String
visits zero ahead ids = []
visits (suc k) (x ∷ xs) ids = x ∷ visits k xs ids
visits (suc k) [] (i ∷ is) = i ∷ visits k is (i ∷ is)
visits (suc k) [] [] = []

visits_all :
    (k : ℕ) (ahead ids : List String)
    → visits (length ahead + k) ahead ids ≡ ahead ++ visits k [] ids
unfolding visits
visits_all k [] ids = let e : 0 + k ≡ k = omega arith in ap (λ n. visits n [] ids) e
visits_all k (x ∷ xs) ids =
    let e : suc (length xs) + k ≡ suc (length xs + k) = omega arith in
    ap (λ n. visits n (x ∷ xs) ids) e ∙ ap (λ zs. x ∷ zs) (visits_all k xs ids)

visits_prefix : (xs ys ids : List String) → visits (length xs) (xs ++ ys) ids ≡ xs
unfolding visits
visits_prefix [] ys ids = refl
visits_prefix (x ∷ xs) ys ids = ap (λ zs. x ∷ zs) (visits_prefix xs ys ids)

visits_wrapped : (xs ys : List String) → visits (length xs) [] (xs ++ ys) ≡ xs
unfolding visits
visits_wrapped [] ys = refl
visits_wrapped (x ∷ xs) ys = ap (λ zs. x ∷ zs) (visits_prefix xs ys (x ∷ (xs ++ ys)))

All-split : (P : String → Type 0) (xs ys : List String) → All P (xs ++ ys) → All P xs × All P ys
All-split P [] ys h = (tt, h)
All-split P (x ∷ xs) ys (p, h) = let (q, r) = All-split P xs ys h in ((p, q), r)

-- A round of the whole cycle meets every replica.
visits-All :
    (P : String → Type 0) (ids ahead : List String)
    → IsPlaced ids ahead
    → All P (visits (length ids) ahead ids)
    → All P ids
visits-All P ids ahead (used, e) h =
    let long : length ids ≡ length ahead + length used =
      omega (arith, ap length e, length-append used ahead) in
    let wrapped : visits (length used) [] ids ≡ used =
      ap (λ is. visits (length used) [] is) e ∙ visits_wrapped used ahead in
    let met : visits (length ids) ahead ids ≡ ahead ++ used =
      ap (λ n. visits n ahead ids) long
      ∙ visits_all (length used) ahead ids
      ∙ ap (λ zs. ahead ++ zs) wrapped in
    let (p, q) = All-split P ahead used (subst (All P) met h) in
    subst (All P) (sym e) (All-append P used ahead q p)

pub All-contains :
    (P : String → Type 0) (r : String) (xs : List String) → All P xs → contains r xs ≡ true → P r
All-contains P r [] h c = absurd (ground (arith, c))
All-contains P r (x ∷ xs) (p, h) c = elim (Bool-cases (x == r)) [
  | inl same ↦ subst P ((string_eq.test_iff x r).0 same) p
  | inr other ↦ All-contains P r xs h (ground (arith, other, c))
]

-- What the scan finds: a replica with room, or none after it has met full replicas only. Nothing moves
-- but the cycle.
abbrev Found :
    ℕ
    → Dict String GenerationRequest
    → List String
    → List String
    → RolloutManager
    → Option String × RolloutManager
    → Type 0
Found k d ahead ids m (none, n) =
    (n ≡ record m { ahead = n.ahead; replica_ids = ids })
    × IsPlaced ids n.ahead
    × All (λ r. m.max_in_flight_per_replica ≤ load r d) (visits k ahead ids)
Found k d ahead ids m (some r, n) =
    (n ≡ record m { ahead = n.ahead; replica_ids = ids })
    × IsPlaced ids n.ahead
    × (contains r ids ≡ true)
    × (load r d < m.max_in_flight_per_replica)

-- A full replica first.
after_full :
    (k : ℕ) (d : Dict String GenerationRequest) (x : String) (ahead rest ids : List String)
    (m : RolloutManager) (y : Option String × RolloutManager)
    → visits (suc k) ahead ids ≡ x ∷ visits k rest ids
    → m.max_in_flight_per_replica ≤ load x d
    → Found k d rest ids m y
    → Found (suc k) d ahead ids m y
after_full k d x ahead rest ids m (none, n) e full (moved, placed, all) =
    (moved, placed, subst (All (λ r. m.max_in_flight_per_replica ≤ load r d)) (sym e) (full, all))
after_full k d x ahead rest ids m (some r, n) e full h = h

schedulable_loop-Found :
    (ks : List String) (d : Dict String GenerationRequest) (ahead ids : List String)
    (m : RolloutManager)
    → IsPlaced ids ahead
    → Found
        (length ks)
        d
        ahead
        ids
        m
        (schedulable_loop ks d (record m { ahead = ahead; replica_ids = ids }))
unfolding schedulable_loop next_replica visits
schedulable_loop-Found [] d ahead ids m placed = (refl, placed, tt)
schedulable_loop-Found (k ∷ ks) d (x ∷ xs) ids m placed =
    if_rule (Found (suc (length ks)) d (x ∷ xs) ids m) (ltb (load x d) m.max_in_flight_per_replica)
      _ _
      (λ room. (
        refl,
        next-IsPlaced ids xs x placed,
        IsPlaced-contains ids xs x placed,
        ground (arith, room),
      ))
      (λ full.
        after_full (length ks) d x (x ∷ xs) xs ids m _ refl (ground (arith, full))
          (schedulable_loop-Found ks d xs ids m (next-IsPlaced ids xs x placed)))
schedulable_loop-Found (k ∷ ks) d [] [] m placed = (refl, ([], refl), tt)
schedulable_loop-Found (k ∷ ks) d [] (i ∷ is) m placed =
    if_rule (Found (suc (length ks)) d [] (i ∷ is) m) (ltb (load i d) m.max_in_flight_per_replica) _
      _
      (λ room.
        (refl, ((i ∷ []), refl), ground (arith, string_eq.test_iff i i), ground (arith, room)))
      (λ full.
        after_full (length ks) d i [] is (i ∷ is) m _ refl (ground (arith, full))
          (schedulable_loop-Found ks d is (i ∷ is) m ((i ∷ []), refl)))

-- The ids are not empty, the cycle stands among them, and each request in flight is of one of them.
pub record IsWellFormed (m : RolloutManager) : Type 0 where
  pub named : contains "" m.replica_ids ≡ false
  pub placed : IsPlaced m.replica_ids m.ahead
  pub known : all_known m.replica_ids m.in_flight ≡ true

-- Every replica has as many requests in flight as it may.
abbrev pub AllFull : RolloutManager → Type 0
AllFull m =
    (r : String)
    → contains r m.replica_ids ≡ true
    → m.max_in_flight_per_replica ≤ load r m.in_flight

-- What `_next_schedulable_replica` finds.
abbrev pub Schedules :
    RolloutManager → Result CoordinatorError (Option String) × RolloutManager → Type 0
Schedules m (err e, n) = ⊥
Schedules m (ok none, n) =
    (n ≡ record m { ahead = n.ahead }) × IsPlaced m.replica_ids n.ahead × AllFull m
Schedules m (ok (some r), n) =
    (n ≡ record m { ahead = n.ahead })
    × IsPlaced m.replica_ids n.ahead
    × (contains r m.replica_ids ≡ true)
    × (load r m.in_flight < m.max_in_flight_per_replica)

Found-Schedules :
    (m : RolloutManager) (x : Option String × RolloutManager)
    → IsPlaced m.replica_ids m.ahead
    → Found (length m.replica_ids) m.in_flight m.ahead m.replica_ids m x
    → Schedules m (ok x.0, x.1)
Found-Schedules m (none, n) here (moved, placed, all) = (
  moved,
  placed,
  λ r.
      All-contains (λ s. m.max_in_flight_per_replica ≤ load s m.in_flight) r m.replica_ids
        (visits-All (λ s. m.max_in_flight_per_replica ≤ load s m.in_flight) m.replica_ids m.ahead
          here all),
)
Found-Schedules m (some r, n) here h = h

pub next_schedulable_replica-Schedules :
    (m : RolloutManager) → IsWellFormed m → Schedules m (next_schedulable_replica m)
unfolding next_schedulable_replica
next_schedulable_replica-Schedules m h =
    subst (λ b. Schedules m (schedulable b m)) (sym h.known)
      (Found-Schedules m (schedulable_loop m.replica_ids m.in_flight m) h.placed
        (schedulable_loop-Found m.replica_ids m.in_flight m.ahead m.replica_ids m h.placed))

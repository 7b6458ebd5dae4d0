-- ===== src/WeightTransfer/Routing.antt =====
-- Which source the locality-aware method of nano_rl/runtime/weight_transfer.py gives a replica.
use nano_rl.Prelude.{
  ap, Option-cases, ℕ, ◌≤◌, String, ◌≡◌, refl, ◌∙◌, true, false, some, List, [], ◌∷◌, length, arith,
  Bool-cases, ◌⊎◌, ◌↔◌, inl, inr, Option, none, if◌then◌else◌,
}
use nano_rl.Prelude.Equality.{◌==◌, nat_eq, string_eq, contains, contains-add}
use nano_rl.Prelude.Exec.{Result, ok, err}
use nano_rl.Prelude.Dict.{Dict, lookup, has}
use nano_rl.Slot.Types.{RolloutReplicaSpec}
use nano_rl.Protocols.{WeightMeta}
use nano_rl.WeightTransfer.{
  WeightTransferPlanner, WeightShardSource, WeightTransferError, local_ranks, locality_aware_source,
  insert_sorted, sorted, missing_gpus, artifact_pull_disabled, shared_gpu_reshard, artifact_pull,
}

-- Each GPU has a trainer rank, and these are the ranks, in order.
abbrev pub RanksOf : (ℕ → Option ℕ) → List ℕ → List ℕ → Type 0
RanksOf rank_at [] [] = Unit
RanksOf rank_at (g ∷ gs) (r ∷ rs) = (rank_at g ≡ some r) × RanksOf rank_at gs rs
RanksOf rank_at _ _ = ⊥

-- The rank of a GPU, in the planner's dict.
abbrev pub in_dict : Dict ℕ ℕ → ℕ → Option ℕ
in_dict ranks g = lookup g ranks

local_ranks_le : (gs : List ℕ) (ranks : Dict ℕ ℕ) → length (local_ranks gs ranks) ≤ length gs
unfolding local_ranks
local_ranks_le [] ranks = omega arith
local_ranks_le (g ∷ gs) ranks = ground (arith, local_ranks_le gs ranks)

local_ranks-RanksOf :
    (gs : List ℕ) (ranks : Dict ℕ ℕ)
    → length (local_ranks gs ranks) ≡ length gs
    → RanksOf (in_dict ranks) gs (local_ranks gs ranks)
unfolding local_ranks
local_ranks-RanksOf [] ranks h = tt
local_ranks-RanksOf (g ∷ gs) ranks h =
    ground (arith, local_ranks_le gs ranks, local_ranks-RanksOf gs ranks)

RanksOf-length :
    (gs rs : List ℕ) (ranks : Dict ℕ ℕ)
    → RanksOf (in_dict ranks) gs rs
    → length (local_ranks gs ranks) ≡ length gs
unfolding local_ranks
RanksOf-length [] [] ranks h = refl
RanksOf-length (g ∷ gs) (r ∷ rs) ranks h = ground (arith, RanksOf-length gs rs ranks)
RanksOf-length [] (r ∷ rs) ranks h = absurd h
RanksOf-length (g ∷ gs) [] ranks h = absurd h

contains-insert_sorted :
    (k n : ℕ) (xs : List ℕ) → contains k (insert_sorted n xs) ≡ contains k (n ∷ xs)
unfolding insert_sorted
contains-insert_sorted k n [] = refl
contains-insert_sorted k n (x ∷ xs) = ground (arith, contains-insert_sorted k n xs)

contains-sorted : (k : ℕ) (xs : List ℕ) → contains k (sorted xs) ≡ contains k xs
unfolding sorted
contains-sorted k [] = refl
contains-sorted k (x ∷ xs) =
    ground (arith, contains-sorted k xs, contains-insert_sorted k x (sorted xs))

contains-missing_gpus :
    (k : ℕ) (gs : List ℕ) (ranks : Dict ℕ ℕ)
    → contains k (missing_gpus gs ranks) ≡ (if has k ranks then false else contains k gs)
unfolding missing_gpus
contains-missing_gpus k [] ranks = ground arith
contains-missing_gpus k (g ∷ gs) ranks =
    let rest = missing_gpus gs ranks in
    elim (Bool-cases (g == k)) [
      | inl same ↦
          let e : g ≡ k = (nat_eq.test_iff g k).0 same in
          let alike : has g ranks ≡ has k ranks = ap (λ j. has j ranks) e in
          ground (arith, same, alike, contains-missing_gpus k gs ranks, contains-add k g rest)
      | inr differs ↦
          ground (arith, differs, contains-missing_gpus k gs ranks, contains-add k g rest)
    ]

-- The listed GPUs are those of the replica that have no rank.
abbrev pub Lacks : (ℕ → Option ℕ) → List ℕ → List ℕ → Type 0
Lacks rank_at gs missing =
    (g : ℕ) → (contains g missing ≡ true) ↔ ((contains g gs ≡ true) × (rank_at g ≡ none))

missing-Lacks :
    (gs : List ℕ) (ranks : Dict ℕ ℕ) → Lacks (in_dict ranks) gs (sorted (missing_gpus gs ranks))
missing-Lacks gs ranks g =
    let among = contains-sorted g (missing_gpus gs ranks) ∙ contains-missing_gpus g gs ranks in
    elim (Option-cases (lookup g ranks)) [
      | inl e ↦ (λ h. ground (arith, among, e, h), λ (h, _). ground (arith, among, e, h))
      | inr (r, e) ↦
          (λ h. absurd (ground (arith, among, e, h)), λ (_, h). absurd (ground (arith, e, h)))
    ]

-- A local source is on the GPUs of the replica and lists the rank of each; a remote one has no source
-- GPUs, and it, or the refusal when remote ones are not allowed, is for a replica of which some GPU
-- has no rank.
abbrev pub SourceOutcome :
    WeightTransferPlanner
    → RolloutReplicaSpec
    → (ℕ → Option ℕ)
    → String
    → Result WeightTransferError WeightShardSource
    → Type 0
SourceOutcome p replica rank_at artifact (err (artifact_pull_disabled id missing)) =
    (id ≡ replica.replica_id)
    × (p.allow_rollout_only_artifact_pull ≡ false)
    × Lacks rank_at replica.gpu_ids missing
    × ((rs : List ℕ) → ¬ RanksOf rank_at replica.gpu_ids rs)
SourceOutcome p replica rank_at artifact (ok s) =
    (s.replica_id ≡ replica.replica_id)
    × (s.target_gpu_ids ≡ replica.gpu_ids)
    × (s.target_worker_ids ≡ replica.worker_ids)
    × (s.artifact_uri ≡ some artifact)
    × (((s.kind ≡ shared_gpu_reshard)
          × (s.source_gpu_ids ≡ replica.gpu_ids)
          × RanksOf rank_at replica.gpu_ids s.source_rank_ids)
        ⊎ ((s.kind ≡ artifact_pull)
            × (s.source_gpu_ids ≡ [])
            × (s.source_rank_ids ≡ [])
            × (p.allow_rollout_only_artifact_pull ≡ true)
            × ((rs : List ℕ) → ¬ RanksOf rank_at replica.gpu_ids rs)))

-- A replica is resharded from its own GPUs exactly when each of them has a trainer rank, with those ranks
-- in the order of the GPUs. Otherwise it pulls the artifact, with no source ranks or GPUs, or, where
-- that is disabled, is refused with the GPUs that have no rank. The targets are the GPUs and workers
-- of the replica.
pub locality_aware_source-SourceOutcome :
    (p : WeightTransferPlanner) (replica : RolloutReplicaSpec) (meta : WeightMeta)
    (ranks : Dict ℕ ℕ) (artifact : String)
    → SourceOutcome p replica
        (in_dict ranks)
        artifact
        (locality_aware_source p replica meta ranks artifact)
unfolding locality_aware_source
locality_aware_source-SourceOutcome p replica meta ranks artifact =
    elim (Bool-cases (length (local_ranks replica.gpu_ids ranks) == length replica.gpu_ids)) [
      | inl e ↦ rw e (
        refl,
        refl,
        refl,
        refl,
        inl (refl, refl, local_ranks-RanksOf replica.gpu_ids ranks ((nat_eq.test_iff _ _).0 e)),
      )
      | inr e ↦ elim (Bool-cases p.allow_rollout_only_artifact_pull) [
        | inl f ↦ simp (e, f) (refl, refl, refl, refl, inr (refl, refl, refl, refl, no_ranks e))
        | inr f ↦ simp (e, f) (refl, refl, missing-Lacks replica.gpu_ids ranks, no_ranks e)
      ]
    ]
  where
    no_ranks :
        (length (local_ranks replica.gpu_ids ranks) == length replica.gpu_ids) ≡ false
        → (rs : List ℕ) → ¬ RanksOf (in_dict ranks) replica.gpu_ids rs
    no_ranks e rs h = ground (arith, e, RanksOf-length replica.gpu_ids rs ranks h)

-- ===== src/WeightTransfer.antt =====
-- `WeightTransferPlanner` of nano_rl/runtime/weight_transfer.py, with its records of
-- nano_rl/runtime/protocols.py: where each rollout replica gets a version of the weights from.
pub mod Routing
pub mod Planning
mod Tests
use nano_rl.Prelude.{
  ℕ, String, Bool, true, false, not, Option, none, some, List, [], ◌∷◌, length, leb, nat_beq,
  if◌then◌else◌,
}
use nano_rl.Prelude.Equality.{◌==◌, nat_eq, string_eq, add}
use nano_rl.Prelude.Exec.{Result, ok, err}
use nano_rl.Prelude.Dict.{Dict, lookup, insert, has}
use nano_rl.Slot.Types.{RolloutReplicaSpec, TrainerRankSpec}
use nano_rl.Protocols.{WeightMeta}

pub data WeightTransferMethod : Type 0 where
  object_ref locality_aware_checkpoint : WeightTransferMethod

pub data WeightShardSourceKind : Type 0 where
  ray_object_ref shared_gpu_reshard artifact_pull : WeightShardSourceKind

-- The three texts of `reason`.
pub data SourceReason : Type 0 where
  configured_objectref all_gpus_train some_gpu_only_rolls_out : SourceReason

pub record WeightShardSource : Type 0 where
  pub replica_id : String
  pub kind : WeightShardSourceKind
  pub target_gpu_ids : List ℕ
  pub target_worker_ids : List String
  pub source_rank_ids : List ℕ
  pub source_gpu_ids : List ℕ
  pub artifact_uri : Option String
  pub manifest_uri : Option String
  -- the version and the replica that the key is made of
  pub object_ref_key : Option (ℕ × String)
  pub reason : SourceReason

-- `metadata`: the planner's name, and the sorted GPUs of the trainer ranks.
pub record PlanMetadata : Type 0 where
  pub planner : String
  pub shared_source_gpus : Option (List ℕ)

pub record WeightTransferPlan : Type 0 where
  pub version_id : ℕ
  pub method : WeightTransferMethod
  pub artifact_uri : Option String
  pub manifest_uri : Option String
  pub sources : Dict String WeightShardSource
  pub metadata : PlanMetadata

pub record WeightTransferPlanner : Type 0 where
  pub method : WeightTransferMethod
  pub allow_rollout_only_artifact_pull : Bool

-- `WeightTransferError` of a replica with these GPUs that no trainer rank has.
pub data WeightTransferError : Type 0 where
  artifact_pull_disabled : String → List ℕ → WeightTransferError

-- `sorted`
pub insert_sorted : ℕ → List ℕ → List ℕ
insert_sorted n [] = n ∷ []
insert_sorted n (x ∷ xs) = let rest = insert_sorted n xs in if leb n x then n ∷ x ∷ xs else x ∷ rest

pub sorted : List ℕ → List ℕ
unfolding insert_sorted
sorted [] = []
sorted (x ∷ xs) = insert_sorted x (sorted xs)

-- `{rank.gpu_id: rank.rank for rank in trainer_ranks}`
pub rank_by_gpu : List TrainerRankSpec → Dict ℕ ℕ → Dict ℕ ℕ
rank_by_gpu [] d = d
rank_by_gpu (r ∷ rs) d = rank_by_gpu rs (insert r.gpu_id r.rank d)

abbrev keys : Dict ℕ ℕ → List ℕ
keys [] = []
keys ((g, r) ∷ d) = g ∷ keys d

-- `x or y` on text
abbrev pub text_or : Option String → String → String
text_or none y = y
text_or (some x) y = if x == "" then y else x

-- The ranks of those GPUs that have one, in order.
pub local_ranks : List ℕ → Dict ℕ ℕ → List ℕ
local_ranks [] ranks = []
local_ranks (g ∷ gs) ranks = elim (lookup g ranks) [
  | none ↦ local_ranks gs ranks
  | some r ↦ r ∷ local_ranks gs ranks
]

-- `set(gpu_ids) - set(trainer_rank_by_gpu)`
pub missing_gpus : List ℕ → Dict ℕ ℕ → List ℕ
missing_gpus [] ranks = []
missing_gpus (g ∷ gs) ranks =
    let rest = missing_gpus gs ranks in if has g ranks then rest else add g rest

pub object_ref_source : RolloutReplicaSpec → WeightMeta → WeightShardSource
object_ref_source replica meta = record {
  replica_id = replica.replica_id;
  kind = ray_object_ref;
  target_gpu_ids = replica.gpu_ids;
  target_worker_ids = replica.worker_ids;
  source_rank_ids = [];
  source_gpu_ids = [];
  artifact_uri = none;
  manifest_uri = none;
  object_ref_key = some (meta.version_id, replica.replica_id);
  reason = configured_objectref;
}

abbrev pub reshard_source : RolloutReplicaSpec → WeightMeta → Dict ℕ ℕ → String → WeightShardSource
reshard_source replica meta ranks artifact_uri = record {
  replica_id = replica.replica_id;
  kind = shared_gpu_reshard;
  target_gpu_ids = replica.gpu_ids;
  target_worker_ids = replica.worker_ids;
  source_rank_ids = local_ranks replica.gpu_ids ranks;
  source_gpu_ids = replica.gpu_ids;
  artifact_uri = some artifact_uri;
  manifest_uri = meta.manifest_uri;
  object_ref_key = none;
  reason = all_gpus_train;
}

abbrev pub pull_source : RolloutReplicaSpec → WeightMeta → String → WeightShardSource
pull_source replica meta artifact_uri = record {
  replica_id = replica.replica_id;
  kind = artifact_pull;
  target_gpu_ids = replica.gpu_ids;
  target_worker_ids = replica.worker_ids;
  source_rank_ids = [];
  source_gpu_ids = [];
  artifact_uri = some artifact_uri;
  manifest_uri = meta.manifest_uri;
  object_ref_key = none;
  reason = some_gpu_only_rolls_out;
}

pub locality_aware_source :
    WeightTransferPlanner
    → RolloutReplicaSpec
    → WeightMeta
    → Dict ℕ ℕ
    → String
    → Result WeightTransferError WeightShardSource
unfolding local_ranks missing_gpus sorted
locality_aware_source p replica meta ranks artifact_uri =
    if length (local_ranks replica.gpu_ids ranks) == length replica.gpu_ids
    then ok (reshard_source replica meta ranks artifact_uri)
    else if not p.allow_rollout_only_artifact_pull
    then err
        (artifact_pull_disabled replica.replica_id (sorted (missing_gpus replica.gpu_ids ranks)))
    else ok (pull_source replica meta artifact_uri)

-- `{replica.replica_id: source(replica) for replica in replicas}`
pub sources_of :
    (RolloutReplicaSpec → Result WeightTransferError WeightShardSource)
    → List RolloutReplicaSpec
    → Dict String WeightShardSource
    → Result WeightTransferError (Dict String WeightShardSource)
sources_of source [] d = ok d
sources_of source (r ∷ rs) d = elim (source r) [
  | err e ↦ err e
  | ok s ↦ sources_of source rs (insert r.replica_id s d)
]

abbrev plan_with :
    WeightMeta
    → WeightTransferMethod
    → PlanMetadata
    → Result WeightTransferError (Dict String WeightShardSource)
    → Result WeightTransferError WeightTransferPlan
plan_with meta method metadata (err e) = err e
plan_with meta method metadata (ok sources) = ok (record {
  version_id = meta.version_id;
  method = method;
  artifact_uri = some (text_or meta.artifact_uri meta.model_path);
  manifest_uri = meta.manifest_uri;
  sources = sources;
  metadata = metadata;
})

-- The source of one replica, by the method.
abbrev pub source_by :
    WeightTransferMethod
    → WeightTransferPlanner
    → WeightMeta
    → Dict ℕ ℕ
    → RolloutReplicaSpec
    → Result WeightTransferError WeightShardSource
source_by object_ref p meta ranks replica = ok (object_ref_source replica meta)
source_by locality_aware_checkpoint p meta ranks replica =
    locality_aware_source p replica meta ranks (text_or meta.artifact_uri meta.model_path)

abbrev pub source_for :
    WeightTransferPlanner
    → WeightMeta
    → Dict ℕ ℕ
    → RolloutReplicaSpec
    → Result WeightTransferError WeightShardSource
source_for p meta ranks replica = source_by p.method p meta ranks replica

abbrev metadata_of : WeightTransferMethod → Dict ℕ ℕ → PlanMetadata
metadata_of object_ref ranks = record { planner = "objectref"; shared_source_gpus = none }
metadata_of locality_aware_checkpoint ranks = record {
  planner = "locality_aware_checkpoint";
  shared_source_gpus = some (sorted (keys ranks));
}

pub build_plan :
    WeightTransferPlanner
    → WeightMeta
    → List RolloutReplicaSpec
    → List TrainerRankSpec
    → Result WeightTransferError WeightTransferPlan
unfolding sources_of rank_by_gpu sorted locality_aware_source object_ref_source
build_plan p meta replicas trainer_ranks =
    let ranks = rank_by_gpu trainer_ranks [] in
    plan_with meta p.method (metadata_of p.method ranks)
      (sources_of (source_for p meta ranks) replicas [])

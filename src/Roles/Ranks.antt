-- ===== src/Roles/Ranks.antt =====
-- `RolloutWorkerRole` and `TrainerRankRole` of nano_rl/runtime/roles.py.
use nano_rl.Prelude.{ℕ, ◌+◌, max, String, Bool, false, not, Option, none, some, if◌then◌else◌}
use nano_rl.Prelude.Equality.{◌==◌, nat_eq, string_eq}
use nano_rl.Prelude.Exec.{Result, ok, err}
use nano_rl.Slot.Names.{rollout, role_eq}
use nano_rl.Slot.Types.{GpuLease}
use nano_rl.Protocols.{WeightMeta, TrainBatch, WeightFormat, WeightStatus}
use nano_rl.Roles.{
  RoleError, TrainerRank, assert_trainer_lease, no_assigned_gpu, lease_role, lease_gpu,
  lease_holder,
}

pub record RolloutWorker : Type 0 where
  pub worker_id : String
  pub gpu_id : Option ℕ
  pub dp_rank : Option ℕ
  pub tp_rank : Option ℕ
  pub active_policy_version : Option ℕ
  pub active_weight_checksum : Option String
  pub active_lease_epoch : Option ℕ

pub assert_rollout_lease : RolloutWorker → GpuLease → Result RoleError (Unit {0})
assert_rollout_lease w lease = elim w.gpu_id [
  | none ↦ err no_assigned_gpu
  | some gpu ↦
      if not (lease.role == rollout)
      then err (lease_role lease.role)
      else if not (lease.gpu_id == gpu)
      then err (lease_gpu lease.gpu_id)
      else if not (lease.holder_id == w.worker_id)
      then err (lease_holder lease.holder_id)
      else ok tt
]

-- `RolloutWorkerRole.activate_weight`
pub activate_on_worker :
    WeightMeta → GpuLease → RolloutWorker → Result RoleError (Unit {0}) × RolloutWorker
unfolding assert_rollout_lease
activate_on_worker meta lease w = elim (assert_rollout_lease w lease) [
  | err e ↦ (err e, w)
  | ok _ ↦ (
    ok tt,
    record w {
      active_policy_version = some meta.version_id;
      active_weight_checksum = some meta.checksum;
      active_lease_epoch = some lease.lease_epoch;
    },
  )
]

-- `TrainStats`; the loss is 1.0 divided by this number.
pub record TrainStats : Type 0 where
  pub rank : ℕ
  pub group_epoch : ℕ
  pub train_step : ℕ
  pub train_batch_id : String
  pub num_sequences : ℕ
  pub num_tokens : ℕ
  pub loss_divisor : ℕ

pub optimize :
    TrainBatch → String → GpuLease → TrainerRank → Result RoleError TrainStats × TrainerRank
optimize batch expected_holder lease t = elim (assert_trainer_lease t expected_holder lease) [
  | err e ↦ (err e, t)
  | ok _ ↦ (
    ok (record {
      rank = t.rank;
      group_epoch = t.group_epoch;
      train_step = t.train_step + 1;
      train_batch_id = batch.train_batch_id;
      num_sequences = batch.num_sequences;
      num_tokens = batch.num_tokens;
      loss_divisor = max 1 (batch.num_sequences + t.rank + (t.train_step + 1));
    }),
    record t { train_step = t.train_step + 1 },
  )
]

-- What `export_weight` makes of the parent, with its checksum, its time and its `created_by`; `none`
-- stands for the `RuntimeError` of another rank than 0 that publishes.
pub export_weight : WeightMeta → Bool → String → ℕ → String → TrainerRank → Option WeightMeta
export_weight parent publish checksum now created_by t =
    if (if not (t.rank == 0) then publish else false)
    then none
    else some (record {
      version_id = parent.version_id + 1;
      created_at = now;
      model_path = parent.model_path;
      format = WeightFormat.vllm_compatible;
      checksum = checksum;
      parent_version = some parent.version_id;
      trainer_step = some t.train_step;
      tokenizer_path = parent.tokenizer_path;
      artifact_uri = parent.artifact_uri;
      manifest_uri = parent.manifest_uri;
      tokenizer_hash = none;
      chat_template_hash = none;
      created_by = some created_by;
      status = WeightStatus.registered;
    })

pub bootstrap_weight_meta : String → Option String → String → ℕ → WeightMeta
bootstrap_weight_meta model_path tokenizer_path checksum now = record {
  version_id = 0;
  created_at = now;
  model_path = model_path;
  format = WeightFormat.hf;
  checksum = checksum;
  parent_version = none;
  trainer_step = none;
  tokenizer_path = tokenizer_path;
  artifact_uri = none;
  manifest_uri = none;
  tokenizer_hash = none;
  chat_template_hash = none;
  created_by = some "bootstrap";
  status = WeightStatus.registered;
}

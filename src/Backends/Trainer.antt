-- ===== src/Backends/Trainer.antt =====
-- `MockTrainerBackend` of nano_rl/runtime/backends/trainer_backend.py. Its weight store is any store of
-- the protocol, with its state.
pub mod Resuming
pub mod Publishing
pub mod Building
mod Tests
use Prim.Native.String.{◌++◌ as str_append}
use nano_rl.Prelude.{
  ℕ, ◌+◌, max, String, Bool, true, false, not, Option, none, some, ltb, if◌then◌else◌,
}
use nano_rl.Prelude.Equality.{◌==◌, nat_eq, string_eq}
use nano_rl.Prelude.Exec.{Result, ok, err, Exec, pure, raise, gets, raise_if, modify, ◌>>=◌, ◌>>◌}
use nano_rl.Slot.Names.{RoleName, trainer, role_eq}
use nano_rl.Slot.Types.{GpuLease}
use nano_rl.Protocols.{WeightMeta, WeightFormat, WeightStatus, TrainBatch}
use nano_rl.WeightStore.Values.{Value, Entries, number, text, mapping, null, end, entry, field}
use nano_rl.WeightStore.Manifests.{StoreError, WeightPayload}
use nano_rl.WeightStore.Interface.{StoreOps}
use nano_rl.WeightStore.Building.{StoreKind, options, build_weight_store, build_mock_weight_payload}

-- `BackendStateError` and `SlotStateError`, with one constructor for each message.
pub data BackendError : Type 0 where
  lease_role : RoleName → BackendError
  lease_gpu : ℕ → BackendError
  lease_holder : String → BackendError
  state_rank state_world_size state_group_epoch : ℕ → BackendError
  cannot_export : ℕ → BackendError
  not_initialized : ℕ → BackendError
  rank_outside_world : ℕ → ℕ → BackendError
  not_a_mapping : String → BackendError
  store_refused : StoreError → BackendError

-- The fields of `TrainerBackendConfig` that a mock backend reads.
pub record TrainerBackendConfig : Type 0 where
  pub backend : String
  pub rank : ℕ
  pub world_size : ℕ
  pub gpu_id : ℕ
  pub holder_id : Option String
  pub group_epoch : ℕ
  pub comm_epoch : ℕ
  pub extra : Entries

-- `_rank_must_be_in_world`
pub rank_must_be_in_world : TrainerBackendConfig → Result BackendError TrainerBackendConfig
rank_must_be_in_world c =
    if ltb c.rank c.world_size then ok c else err (rank_outside_world c.rank c.world_size)

pub record TrainStateBundle : Type 0 where
  pub rank : ℕ
  pub world_size : ℕ
  pub group_epoch : ℕ
  pub comm_epoch : ℕ
  pub train_step : ℕ
  pub weight_version : Option ℕ
  -- of the metadata
  pub gpu_resident : Bool

-- A loss: the initial one, or the initial one divided by a number.
pub data Loss : Type 0 where
  initial_loss : Loss
  initial_loss_over : ℕ → Loss

pub record OptimizerStepResult : Type 0 where
  pub rank : ℕ
  pub world_size : ℕ
  pub group_epoch : ℕ
  pub comm_epoch : ℕ
  pub train_step : ℕ
  pub train_batch_id : String
  pub num_sequences : ℕ
  pub num_tokens : ℕ
  pub loss : Loss
  pub lease_gpu_id : ℕ
  pub lease_epoch : ℕ
  pub weight_version : Option ℕ

-- `MockTrainerOptions`, without the floats
pub record MockTrainerOptions : Type 0 where
  pub constant_loss : Bool
  pub export_format : WeightFormat
  pub optimizer_state : String
  pub require_rank0_export : Bool
  pub seed : ℕ
  pub num_parameters : ℕ

pub record Backend (S : Type 0) : Type 0 where
  pub config : TrainerBackendConfig
  pub options : MockTrainerOptions
  -- the state of the weight store, when there is one
  pub weight_store : Option S
  pub initialized : Bool
  pub gpu_resident : Bool
  pub train_step : ℕ
  pub weight_version : Option ℕ

-- `__init__`
abbrev pub create : {S : Type 0} → TrainerBackendConfig → MockTrainerOptions → Option S → Backend S
create config opts store = record {
  config = config;
  options = opts;
  weight_store = store;
  initialized = false;
  gpu_resident = false;
  train_step = 0;
  weight_version = none;
}

abbrev or_text : Option String → String → String
or_text none d = d
or_text (some s) d = if s == "" then d else s

-- With the decimal text of a number.
abbrev pub expected_holder_id : (ℕ → String) → TrainerBackendConfig → String
expected_holder_id decimal c = or_text c.holder_id (str_append "trainer-rank-" (decimal c.rank))

-- `_assert_trainer_lease`
pub check_trainer_lease :
    (ℕ → String) → TrainerBackendConfig → GpuLease → Result BackendError (Unit {0})
check_trainer_lease decimal c lease =
    if not (lease.role == trainer)
    then err (lease_role lease.role)
    else if not (lease.gpu_id == c.gpu_id)
    then err (lease_gpu lease.gpu_id)
    else if not (lease.holder_id == expected_holder_id decimal c)
    then err (lease_holder lease.holder_id)
    else ok tt

-- `_assert_state_matches_rank`
pub check_state : TrainerBackendConfig → TrainStateBundle → Result BackendError (Unit {0})
check_state c state =
    if not (state.rank == c.rank)
    then err (state_rank state.rank)
    else if not (state.world_size == c.world_size)
    then err (state_world_size state.world_size)
    else if not (state.group_epoch == c.group_epoch)
    then err (state_group_epoch state.group_epoch)
    else ok tt

abbrev pub Action : Type 0 → Type 0 → Type 0
Action S A = Exec (Backend S) BackendError A

module _ {S : Type 0} where
  abbrev pub checked : Result BackendError (Unit {0}) → Action S (Unit {0})
  checked r b = (r, b)

  abbrev pub state_bundle : Backend S → TrainStateBundle
  state_bundle b = record {
    rank = b.config.rank;
    world_size = b.config.world_size;
    group_epoch = b.config.group_epoch;
    comm_epoch = b.config.comm_epoch;
    train_step = b.train_step;
    weight_version = b.weight_version;
    gpu_resident = b.gpu_resident;
  }

  pub initialize_rank : Action S TrainStateBundle
  initialize_rank = do
    modify (λ b. record b { initialized = true; gpu_resident = false })
    gets state_bundle

  -- `if not self._initialized: self.initialize_rank()`
  abbrev pub initialize_once : Action S (Unit {0})
  initialize_once b =
      if b.initialized
      then (ok tt, b)
      else (ok tt, record b { initialized = true; gpu_resident = false })

  abbrev restore : Option TrainStateBundle → Action S (Unit {0})
  restore none = pure tt
  restore (some state) = do
    λ b. checked (check_state b.config state) b
    modify (λ b. record b { train_step = state.train_step; weight_version = state.weight_version })

  module _ (decimal : ℕ → String) where
    abbrev pub assert_trainer_lease : GpuLease → Action S (Unit {0})
    assert_trainer_lease lease b = checked (check_trainer_lease decimal b.config lease) b

    pub hydrate : Option TrainStateBundle → GpuLease → Action S TrainStateBundle
    hydrate state lease = do
      assert_trainer_lease lease
      initialize_once
      restore state
      modify (λ b. record b { gpu_resident = true })
      gets state_bundle

    -- `_loss`
    abbrev loss_of : TrainBatch → Backend S → Loss
    loss_of batch b =
        if b.options.constant_loss
        then initial_loss
        else initial_loss_over (max 1 (batch.num_sequences + b.config.rank + b.train_step))

    abbrev step_result : TrainBatch → GpuLease → Backend S → OptimizerStepResult
    step_result batch lease b = record {
      rank = b.config.rank;
      world_size = b.config.world_size;
      group_epoch = b.config.group_epoch;
      comm_epoch = b.config.comm_epoch;
      train_step = b.train_step;
      train_batch_id = batch.train_batch_id;
      num_sequences = batch.num_sequences;
      num_tokens = batch.num_tokens;
      loss = loss_of batch b;
      lease_gpu_id = lease.gpu_id;
      lease_epoch = lease.lease_epoch;
      weight_version = b.weight_version;
    }

    pub optimize : TrainBatch → GpuLease → Action S OptimizerStepResult
    optimize batch lease = do
      assert_trainer_lease lease
      initialize_once
      modify (λ b. record b { gpu_resident = true; train_step = b.train_step + 1 })
      gets (step_result batch lease)

    pub offload : GpuLease → Action S TrainStateBundle
    offload lease = do
      assert_trainer_lease lease
      λ b. raise_if (not b.initialized) (not_initialized b.config.rank) b
      modify (λ b. record b { gpu_resident = false })
      gets state_bundle

    abbrev pub exporter : Backend S → String
    exporter b = str_append "trainer-rank-" (decimal b.config.rank)

    -- The payload that is published.
    abbrev pub export_payload : WeightMeta → Backend S → WeightPayload
    export_payload parent b =
        build_mock_weight_payload (parent.version_id + 1) (some parent.version_id)
          (some b.train_step) parent.model_path b.options.export_format none
          (some (
            entry "backend" (text "mock") (
              entry "optimizer_state" (text b.options.optimizer_state) (
                entry "parent_checksum" (text parent.checksum) (
                  entry "group_epoch" (number b.config.group_epoch) (
                    entry "comm_epoch" (number b.config.comm_epoch) (
                      entry "num_parameters" (number b.options.num_parameters)
                        (entry "seed" (number b.options.seed) end))))))))
          parent.tokenizer_path none none none (exporter b)

    -- The metadata that is built here, with its checksum and its time.
    abbrev export_meta : WeightMeta → String → ℕ → Backend S → WeightMeta
    export_meta parent digest now b = record {
      version_id = parent.version_id + 1;
      created_at = now;
      model_path = parent.model_path;
      format = b.options.export_format;
      checksum = digest;
      parent_version = some parent.version_id;
      trainer_step = some b.train_step;
      tokenizer_path = parent.tokenizer_path;
      artifact_uri = parent.artifact_uri;
      manifest_uri = parent.manifest_uri;
      tokenizer_hash = none;
      chat_template_hash = none;
      created_by = some (exporter b);
      status = WeightStatus.registered;
    }

    -- `self._weight_store.store(payload)`, when there is a store
    abbrev publish_to : StoreOps S → WeightMeta → String → ℕ → Option S → Action S WeightMeta
    publish_to ops parent digest now none b = (ok (export_meta parent digest now b), b)
    publish_to ops parent digest now (some s) b =
        let (meta, s') = ops.store (export_payload parent b) s in
        (ok meta, record b { weight_store = some s'; weight_version = some meta.version_id })

    pub export_weight : StoreOps S → WeightMeta → Bool → String → ℕ → Action S WeightMeta
    export_weight ops parent publish digest now = do
      λ b.
          raise_if
            (if publish
              then if b.options.require_rank0_export then not (b.config.rank == 0) else false
              else false)
            (cannot_export b.config.rank) b
      modify (λ b. record b { weight_version = some (parent.version_id + 1) })
      λ b.
          if publish
          then publish_to ops parent digest now b.weight_store b
          else (ok (export_meta parent digest now b), b)

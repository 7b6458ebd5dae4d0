-- ===== src/Backends/Trainer/Tests.antt =====
-- Witnesses of the trainer backend: rank 0 of one, with a memory store.
use nano_rl.Prelude.{ℕ, String, ◌≡◌, refl, true, none, some, [], ◌∷◌}
use nano_rl.Prelude.Equality.{nat_eq}
use nano_rl.Prelude.Exec.{ok}
use nano_rl.Slot.Names.{trainer, role_eq}
use nano_rl.Slot.Types.{GpuLease}
use nano_rl.Protocols.{WeightMeta, WeightFormat, TrainBatch}
use nano_rl.Roles.Ranks.{bootstrap_weight_meta}
use nano_rl.WeightStore.Values.{end}
use nano_rl.WeightStore.Manifests.{Texts}
use nano_rl.WeightStore.Memory.{MemoryStore, empty}
use nano_rl.WeightStore.Memory.Laws.{Holds, memory_ops, memory_laws}
use nano_rl.WeightStore.Agreement.{no_versions, empty-Holds}
use nano_rl.Backends.Trainer.{
  Backend, TrainerBackendConfig, MockTrainerOptions, check_trainer_lease, create, hydrate, offload,
  export_weight,
}
use nano_rl.Backends.Trainer.Resuming.{Resumes, standby, offload-Resumes}
use nano_rl.Backends.Trainer.Publishing.{Published, export_weight-Published}

abbrev decimal : ℕ → String
decimal n = "0"

abbrev config : TrainerBackendConfig
config = record {
  backend = "mock";
  rank = 0;
  world_size = 1;
  gpu_id = 3;
  holder_id = none;
  group_epoch = 2;
  comm_epoch = 0;
  extra = end;
}

abbrev opts : MockTrainerOptions
opts = record {
  constant_loss = true;
  export_format = WeightFormat.vllm_compatible;
  optimizer_state = "tracked";
  require_rank0_export = true;
  seed = 0;
  num_parameters = 1024;
}

-- A backend that has made four steps.
abbrev backend : Backend MemoryStore
backend = record {
  config = config;
  options = opts;
  weight_store = some empty;
  initialized = true;
  gpu_resident = true;
  train_step = 4;
  weight_version = some 1;
}

abbrev lease : GpuLease
lease = record { gpu_id = 3; role = trainer; holder_id = "trainer-rank-0"; lease_epoch = 5 }

abbrev batch : TrainBatch
batch = record {
  train_batch_id = "train-1";
  sample_refs = [];
  sample_ids = [];
  policy_version_min = 0;
  policy_version_max = 0;
  policy_version_histogram = [];
  num_sequences = 2;
  num_tokens = 8;
  reserved_by = "trainer-group-2";
  reserved_at = 0;
  expires_at = none;
}

accepted : check_trainer_lease decimal config lease ≡ ok tt
unfolding check_trainer_lease
accepted = refl

offload-Resumes_example :
    ((offload decimal lease backend).0 ≡ ok (standby decimal backend))
    × Resumes decimal
        (batch ∷ batch ∷ [])
        lease
        backend
        (hydrate decimal (some (standby decimal backend)) lease (create config opts (some empty)))
offload-Resumes_example =
    offload-Resumes decimal backend (some empty) lease (batch ∷ batch ∷ []) accepted refl

abbrev texts : Texts
texts = record {
  isoformat = λ n. "t";
  fromisoformat = λ s. none;
  digest = λ v. "digest";
  decimal = decimal;
  join = λ a b. a;
}

abbrev parent : WeightMeta
parent = bootstrap_weight_meta "mock://model" none "digest" 0

export_weight-Published_example :
    Published texts
      (memory_ops texts)
      (Holds texts)
      (memory_laws texts)
      decimal
      parent
      no_versions
      backend
      (export_weight decimal (memory_ops texts) parent true "digest" 7 backend)
export_weight-Published_example =
    export_weight-Published texts (memory_ops texts) (Holds texts) (memory_laws texts) decimal
      parent "digest" 7 backend empty no_versions refl refl (empty-Holds texts)

-- ===== src/WeightRegistry/Tests.antt =====
-- The registry of nano_rl/runtime/weight_registry.py with versions 1 and 2 and two workers.
use nano_rl.Prelude.{ℕ, ◌≡◌, refl, none, some, [], ◌∷◌}
use nano_rl.Prelude.Equality.{nat_eq}
use nano_rl.Prelude.Dict.{lookup, insert}
use nano_rl.Protocols.{WeightMeta, WeightStatus, WeightFormat}
use nano_rl.WeightRegistry.{
  WeightRegistry, ActivationState, create, register, begin_activation, mark_failed, require_version,
}
use nano_rl.WeightRegistry.Invariant.{IsSound}
use nano_rl.WeightRegistry.Keeping.{
  run, step, registers_meta, begins_activation, marks_failed, acks_activation, history-IsSound,
  failed_for_good, HasFailed,
}
use nano_rl.WeightRegistry.Activation.{acks_of, all_acks_activate}

abbrev version : ℕ → WeightMeta
version v = record {
  version_id = v;
  created_at = 0;
  model_path = "model";
  format = WeightFormat.hf;
  checksum = "sum";
  parent_version = none;
  trainer_step = none;
  tokenizer_path = none;
  artifact_uri = none;
  manifest_uri = none;
  tokenizer_hash = none;
  chat_template_hash = none;
  created_by = none;
  status = WeightStatus.registered;
}

abbrev begun : WeightRegistry
begun =
    run
      (registers_meta (version 1)
        ∷ registers_meta (version 2)
        ∷ begins_activation 2 ("w0" ∷ "w1" ∷ [])
        ∷ [])
      create

abbrev activation : ActivationState
activation = record { version_id = 2; required_workers = "w0" ∷ "w1" ∷ []; acked_workers = [] }

begun-IsSound : IsSound begun
begun-IsSound = history-IsSound (
    registers_meta (version 1)
    ∷ registers_meta (version 2)
    ∷ begins_activation 2 ("w0" ∷ "w1" ∷ [])
    ∷ [])

begun-activation : begun.activation ≡ some activation
unfolding run step create register begin_activation require_version lookup insert
begun-activation = refl

history-IsSound_example :
    IsSound (run (registers_meta (version 1) ∷ marks_failed 1 ∷ acks_activation 1 "w0" ∷ []) create)
history-IsSound_example =
    history-IsSound (registers_meta (version 1) ∷ marks_failed 1 ∷ acks_activation 1 "w0" ∷ [])

all_acks_activate_example : (run (acks_of 2 ("w1" ∷ "w0" ∷ [])) begun).latest_active_global ≡ some 2
all_acks_activate_example =
    all_acks_activate ("w1" ∷ "w0" ∷ []) begun activation begun-IsSound begun-activation refl refl

abbrev dead : WeightRegistry
dead = run (registers_meta (version 1) ∷ marks_failed 1 ∷ []) create

dead-HasFailed : HasFailed (lookup 1 dead.versions)
unfolding run step create register mark_failed require_version lookup insert
dead-HasFailed = refl

failed_for_good_example : HasFailed (
    lookup 1
      (run (registers_meta (version 1) ∷ begins_activation 1 ("w0" ∷ []) ∷ []) dead).versions)
failed_for_good_example =
    failed_for_good (registers_meta (version 1) ∷ begins_activation 1 ("w0" ∷ []) ∷ []) dead 1
      (history-IsSound (registers_meta (version 1) ∷ marks_failed 1 ∷ [])) dead-HasFailed

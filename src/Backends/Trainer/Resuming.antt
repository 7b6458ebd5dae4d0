-- ===== src/Backends/Trainer/Resuming.antt =====
-- A trainer backend of nano_rl/runtime/backends/trainer_backend.py that goes on from the bundle of
-- another.
use mathlib.Core.Path.{subst}
use nano_rl.Prelude.{
  ℕ, ◌+◌, String, ◌≡◌, refl, sym, ap, ◌∙◌, true, false, Option, some, List, [], ◌∷◌, arith,
  Bool-cases, inl, inr,
}
use nano_rl.Prelude.Equality.{nat_eq}
use nano_rl.Prelude.Exec.{Result, ok, err, Result-cases}
use nano_rl.Slot.Types.{GpuLease}
use nano_rl.Protocols.{TrainBatch}
use nano_rl.Backends.Trainer.{
  Backend, BackendError, TrainStateBundle, OptimizerStepResult, create, check_trainer_lease,
  check_state, state_bundle, hydrate, optimize, offload, step_result,
}

-- What the optimizer steps depend on is the same.
pub record Same {S : Type 0} (a b : Backend S) : Type 0 where
  pub config : a.config ≡ b.config
  pub options : a.options ≡ b.options
  pub train_step : a.train_step ≡ b.train_step
  pub weight_version : a.weight_version ≡ b.weight_version

module _ {S : Type 0} (decimal : ℕ → String) where
  -- The answers to a sequence of batches under one lease.
  pub train_all :
      List TrainBatch → GpuLease → Backend S → List (Result BackendError OptimizerStepResult)
  train_all [] lease b = []
  train_all (batch ∷ batches) lease b =
      let (r, b') = optimize decimal batch lease b in r ∷ train_all batches lease b'

  -- The backend after a step.
  abbrev stepped : Backend S → Backend S
  stepped b = record b { initialized = true; gpu_resident = true; train_step = b.train_step + 1 }

  optimize_passes :
      (batch : TrainBatch) (lease : GpuLease) (b : Backend S)
      → check_trainer_lease decimal b.config lease ≡ ok tt
      → optimize decimal batch lease b
        ≡ (ok (step_result decimal batch lease (stepped b)), stepped b)
  unfolding optimize
  optimize_passes batch lease b e = elim (Bool-cases b.initialized) [
    | inl i ↦ rw (optimize, e, i) refl
    | inr i ↦ rw (optimize, e, i) refl
  ]

  optimize_refused :
      (batch : TrainBatch) (lease : GpuLease) (b : Backend S) (x : BackendError)
      → check_trainer_lease decimal b.config lease ≡ err x
      → optimize decimal batch lease b ≡ (err x, b)
  unfolding optimize
  optimize_refused batch lease b x e = rw e refl

  step_result-Same :
      (batch : TrainBatch) (lease : GpuLease) (a b : Backend S)
      → Same a b
      → step_result decimal batch lease (stepped a) ≡ step_result decimal batch lease (stepped b)
  step_result-Same batch lease a b s i = step_result decimal batch lease (record a {
    config = s.config i;
    options = s.options i;
    train_step = s.train_step i + 1;
    weight_version = s.weight_version i;
  })

  optimize-Same :
      (batch : TrainBatch) (lease : GpuLease) (a b : Backend S)
      → Same a b
      → ((optimize decimal batch lease a).0 ≡ (optimize decimal batch lease b).0)
        × Same (optimize decimal batch lease a).1 (optimize decimal batch lease b).1
  optimize-Same batch lease a b s =
      let other = ap (λ c. check_trainer_lease decimal c lease) (sym s.config) in
      elim (Result-cases (check_trainer_lease decimal a.config lease)) [
        | inl (x, e) ↦
            rw (optimize_refused batch lease a x e, optimize_refused batch lease b x (other ∙ e))
              (refl, s)
        | inr (_, e) ↦
            rw (optimize_passes batch lease a e, optimize_passes batch lease b (other ∙ e))
              (
                ap ok (step_result-Same batch lease a b s),
                record {
                  config = s.config;
                  options = s.options;
                  train_step = ap (λ n. n + 1) s.train_step;
                  weight_version = s.weight_version;
                },
              )
      ]

  train_all-Same :
      (batches : List TrainBatch) (lease : GpuLease) (a b : Backend S)
      → Same a b
      → train_all batches lease a ≡ train_all batches lease b
  unfolding train_all
  train_all-Same [] lease a b s = refl
  train_all-Same (batch ∷ batches) lease a b s =
      let (r, t) = optimize-Same batch lease a b s in
      ap (λ x. x ∷ train_all batches lease (optimize decimal batch lease a).1) r
      ∙ ap (λ xs. (optimize decimal batch lease b).0 ∷ xs)
          (train_all-Same batches lease (optimize decimal batch lease a).1
            (optimize decimal batch lease b).1 t)

  bundle-matches : (b : Backend S) → check_state b.config (state_bundle b) ≡ ok tt
  unfolding check_state
  bundle-matches b = ground (
    arith,
    nat_eq.test_iff b.config.rank b.config.rank,
    nat_eq.test_iff b.config.world_size b.config.world_size,
    nat_eq.test_iff b.config.group_epoch b.config.group_epoch,
  )

  -- The state that an offload hands out.
  abbrev pub standby : Backend S → TrainStateBundle
  standby b = state_bundle (record b { gpu_resident = false })

  -- The answer of a hydration, and the steps after it.
  abbrev pub Resumes :
      List TrainBatch
      → GpuLease
      → Backend S
      → Result BackendError TrainStateBundle × Backend S
      → Type 0
  Resumes batches lease b (ok _, n) =
      (n.gpu_resident ≡ true) × (train_all batches lease n ≡ train_all batches lease b)
  Resumes batches lease b (err _, n) = ⊥

  module _ (b : Backend S) (store : Option S) (lease : GpuLease) (batches : List TrainBatch)
      (accepted : check_trainer_lease decimal b.config lease ≡ ok tt) where
    abbrev hydrated : Backend S
    hydrated = record (create b.config b.options store) {
      initialized = true;
      gpu_resident = true;
      train_step = b.train_step;
      weight_version = b.weight_version;
    }

    hydrate_passes :
        hydrate decimal (some (standby b)) lease (create b.config b.options store)
        ≡ (ok (state_bundle hydrated), hydrated)
    unfolding hydrate
    hydrate_passes = rw (hydrate, accepted, bundle-matches (record b { gpu_resident = false })) refl

    -- An initialized backend that is offloaded hands out a bundle. A new backend with the same
    -- configuration and options, hydrated from the bundle under a lease that the rank accepts, is
    -- resident and answers every further sequence of batches as the first backend would have.
    pub offload-Resumes :
        b.initialized ≡ true
        → ((offload decimal lease b).0 ≡ ok (standby b))
          × Resumes batches lease b
              (hydrate decimal (some (standby b)) lease (create b.config b.options store))
    unfolding offload
    offload-Resumes ready = (
      rw (offload, accepted, ready) refl,
      subst (Resumes batches lease b) (sym hydrate_passes)
          (refl, train_all-Same batches lease hydrated b hydrated-Same),
    )
      where
        hydrated-Same : Same hydrated b
        hydrated-Same = record {
          config = refl;
          options = refl;
          train_step = refl;
          weight_version = refl;
        }

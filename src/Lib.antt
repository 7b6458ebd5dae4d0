-- ===== src/Lib.antt =====
-- The runtime cores of nano-rl, a reinforcement-learning runtime in Python that shares GPUs
-- between rollout workers and trainer ranks.
--
-- How the program is put together: a YAML configuration is resolved into a GPU plan
-- (nano_rl/config.py). `GpuLeaseManagerCore` (nano_rl/runtime/slot.py) decides which role may use
-- a GPU, and `GpuResidencyManagerCore` (nano_rl/runtime/offload.py) moves a shared GPU from one
-- role to the other, by the hooks of the backends and a grant in between. `RolloutManagerCore`
-- (nano_rl/runtime/coordinators.py) hands prompts to the rollout replicas. Finished samples go
-- through `SampleQueueActorCore` (nano_rl/runtime/sample_queue.py) to the trainers, whose new
-- weights `WeightRegistryActorCore` (nano_rl/runtime/weight_registry.py) registers and activates;
-- a store of nano_rl/runtime/weight_store.py keeps them, and `WeightTransferPlanner`
-- (nano_rl/runtime/weight_transfer.py) decides where each replica gets them from. The roles of
-- nano_rl/runtime/roles.py, or the mock backends below nano_rl/runtime/backends, generate and train.
-- `ControllerCore` (nano_rl/runtime/controller.py) drives them all in one process, and the training
-- loop of nano_rl/runtime/ray/training.py drives them as actors.
--
-- Files:
--   Prelude and its children: the library names, tests on numbers, `==` as an interface, Python's dict
--   as an association list in insertion order, and methods that change an object and may raise.
--   Exceptions: nano_rl/exceptions.py, with one constructor for each message.
--   Slot.Names, Slot.Types: the enumerations and records of nano_rl/runtime/slot.py.
--   Slot.Lease: `GpuLeaseManagerCore`; `create` is `__init__`, and each method has its name. Its
--   children: Invariant (phase, role and holder agree), Changes (histories), Fencing (tokens), Granting,
--   Refusals, Creation, Serving.
--   Offload.Types: the enumerations and records of nano_rl/runtime/offload.py. Offload:
--   `GpuResidencyManagerCore`. Its children: Moves, Waking (the hydration), Entering (`enter_train`),
--   Leaving (`exit_train`), Refusing (their assertions), Outcomes and Toggling (how a call may end),
--   Coherence (residency and lease agree), Histories, Handover.
--   Protocols: the records of nano_rl/runtime/protocols.py.
--   SampleQueue: `SampleQueueActorCore`; `create` is `__init__`, `select` the loop of
--   `reserve_train_batch`. Its children: Places (where a sample is), Reserving, Releasing, Loop (the
--   rule of that loop), Selecting, Budget, Histories, Admission, Lifetimes, Batches, Returning.
--   WeightRegistry: `WeightRegistryActorCore` of nano_rl/runtime/weight_registry.py. Its children:
--   Invariant, Keeping (histories), Activation (acknowledgements), Newest.
--   Coordinators: `RolloutManagerCore` of nano_rl/runtime/coordinators.py, and in its child Trainers
--   `TrainerCoordinatorCore`. Its other children: Coercing (prompts), Scanning (the search for
--   a replica with room), Handing, Dispatching, Keeping (histories), Taking (what a dispatch takes).
--   WeightTransfer: `WeightTransferPlanner` of nano_rl/runtime/weight_transfer.py. Its children: Routing (one
--   replica), Planning.
--   GpuPlan: `_build_gpu_plan` of nano_rl/config.py. Its children: Covering, Ranges, Blocks.
--   Config: the sections of nano_rl/config.py. Its children: Sections (their validators), CrossFields
--   (`_validate_cross_fields`), Fitting (what it gives the plan).
--   Roles: the lease guards of nano_rl/runtime/roles.py and the activation of a replica. Its
--   children: Leases, Ranks (workers and trainer ranks), Generating (samples).
--   WeightStore: nano_rl/runtime/weight_store.py. Its children: Values (of Python and JSON), Manifests,
--   Memory (`MockMemoryWeightStore`), Files (`MockFilesystemWeightStore`), Interface (what both promise),
--   Agreement, Building.
--   Controller: `ControllerCore`. Its children: Windows (train windows), Activating, Pumping, Smoke (an
--   iteration), Backlog, Finishing.
--   DataSources: nano_rl/runtime/data_sources.py. Its children: Reading (rows), Profile (mock profiles),
--   Sources (the four sources), Padding, Building (coercions), Choosing (`build_prompt_source`).
--   Backends.Trainer: `MockTrainerBackend`. Its children: Resuming, Publishing, Building. Backends.Rollout:
--   `MockRolloutBackend`. Its children: Leases, Sampling, Generating, Bounds.
--   Metrics: nano_rl/runtime/metrics.py.
--   Training: `RayTrainingLoop` of nano_rl/runtime/ray/training.py. Its children: Windows (the leases),
--   Trainers, Weights, Steps (`_run_train_step`), Kept, Settling (the batch), Returning (the GPUs),
--   Batching (`PromptBatcher`), Rollouts (`_run_rollout_step`), Counting, Rolling, Runs (`run`),
--   Completing, Serving.
--
-- Numbers: Python's integers here are never negative, so they are natural numbers; where the
-- source subtracts and compares, the model adds on the other side. Instants are microseconds. A
-- duration of a hook is a number of some unit in which the times are whole. Loops run over lists,
-- but for some that have a number of rounds: `dispatch_loop` has the budget of requests,
-- `replica_loop` the number of GPUs, `pump_loop` and `rollout_loop` one more than the prompts of
-- the backlog, and `token_loop` and `pad_words` the tokens and words that are asked for. That these
-- suffice is proved with them; `dispatch_loop` counts down as the source's loop does.
--
-- A backend's hook is a function from its context to a report or an exception; nothing else is
-- assumed of it. Of the actors of the training loop nothing is assumed either: a call on their state
-- returns or fails, and calls that run at once are taken in the order in which they are started. An
-- object of a metadata dict is a number that stands for it.
--
-- Not modelled: the text of messages, float values, logging; the clock and `uuid4` are arguments.
--
-- Also not modelled: the backends on vLLM, Hugging Face and FSDP2, the rest of the Ray layer (actor
-- wrappers, placement, cluster), artifacts and rewards, and the scripts.
pub mod Prelude
pub mod Exceptions
pub mod Protocols
pub mod Slot
pub mod Offload
pub mod SampleQueue
pub mod WeightRegistry
pub mod Coordinators
pub mod WeightTransfer
pub mod GpuPlan
pub mod Roles
pub mod Metrics
pub mod WeightStore
pub mod Controller
pub mod Backends
pub mod Config
pub mod DataSources
pub mod Training

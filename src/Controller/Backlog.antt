-- ===== src/Controller/Backlog.antt =====
-- Which calls of nano_rl/runtime/controller.py leave the backlog of prompts as it is.
use mathlib.Core.Path.{subst}
use nano_rl.Prelude.{
  ℕ, String, ◌≡◌, refl, ap, ◌∙◌, suc, Option, none, some, Option-cases, List, [], ◌∷◌, length,
  arith, inl, inr,
}
use nano_rl.Prelude.Equality.{string_eq}
use nano_rl.Prelude.Exec.{Result, ok, err, Exec, pure, raise, continue, ◌>>=◌}
use nano_rl.Prelude.Dict.{lookup}
use nano_rl.Protocols.{WeightMeta, SampleRecord}
use nano_rl.Slot.Types.{GpuLease}
use nano_rl.WeightTransfer.{WeightTransferPlan, build_plan}
use nano_rl.Slot.Lease as Lease
use nano_rl.Slot.Names.{rollout}
use nano_rl.Offload as Offload
use nano_rl.Roles.{ReplicaController, RoleError}
use nano_rl.Coordinators as Coordinators
use nano_rl.Coordinators.{QueuedPrompt, GenerationRequest, complete_request}
use nano_rl.Controller.{
  World, Controller, ControllerError, Action, lifted, failing, or_error, on_residency, on_leases,
  on_registry, on_rollout, attempt, no_replica,
}
use nano_rl.Controller.Activating.{
  leases_of, leases_for_replica, assert_leases_current, activate_replica, activate_loop,
  activate_all, give_up, activate_planned, planned, of_plan, replica_ids, try_activation,
  activate_weight_for_rollout, bootstrap_initial_weight, bootstrap_unless, role_at, on_role,
}
use nano_rl.Controller.Pumping.{serve, serve_all, of_generate}

abbrev pub backlog : Controller → List QueuedPrompt
backlog c = c.rollout_manager.input_backlog

abbrev pub Keeps : {A : Type 0} → Action A → Type 0
Keeps act = (c : Controller) → backlog (act c).1 ≡ backlog c

pub Keeps-bind :
    {A B : Type 0} (m : Action A) (f : A → Action B)
    → Keeps m
    → ((a : A) → Keeps (f a))
    → Keeps (m >>= f)
Keeps-bind {A} {B} m f h k c = after (m c) (h c)
  where
    after :
        (r : Result ControllerError A × Controller)
        → backlog r.1 ≡ backlog c
        → backlog (continue r.0 f r.1).1 ≡ backlog c
    after (ok a, d) e = k a d ∙ e
    after (err x, d) e = e

lifted-keeps :
    {S E A : Type 0} (wrap : E → ControllerError) (put : S → Controller → Controller)
    (r : Result E A × S) (c : Controller)
    → ((s : S) → backlog (put s c) ≡ backlog c)
    → backlog (lifted wrap put r c).1 ≡ backlog c
lifted-keeps wrap put (ok a, s) c h = h s
lifted-keeps wrap put (err e, s) c h = h s

pub on_residency-Keeps : {A : Type 0} (act : nano_rl.Offload.Action A) → Keeps (on_residency act)
on_residency-Keeps act c = lifted-keeps _ _ (act c.gpu_residency) c (λ s. refl)

pub on_registry-Keeps :
    {A : Type 0} (act : nano_rl.WeightRegistry.Action A) → Keeps (on_registry act)
on_registry-Keeps act c = lifted-keeps _ _ (act c.weight_registry) c (λ s. refl)

pub pure-Keeps : {A : Type 0} (a : A) → Keeps (pure a)
pure-Keeps a c = refl

or_error-Keeps : {A : Type 0} (e : ControllerError) (o : Option A) → Keeps (or_error e o)
or_error-Keeps e none c = refl
or_error-Keeps e (some a) c = refl

role_at-Keeps : (id : String) → Keeps (role_at id)
role_at-Keeps id c = or_error-Keeps (no_replica id) (lookup id c.rollout_roles) c

pub attempt-Keeps :
    {A : Type 0} (body : Action A) (handler : ControllerError → Action (Unit {0}))
    → Keeps body
    → ((e : ControllerError) → Keeps (handler e))
    → Keeps (attempt body handler)
attempt-Keeps {A} body handler h k c = after (body c) (h c)
  where
    after :
        (r : Result ControllerError A × Controller)
        → backlog r.1 ≡ backlog c
        → backlog (failing handler r).1 ≡ backlog c
    after (ok a, d) e = e
    after (err x, d) e = Keeps-bind (handler x) (λ _. raise x) (k x) (λ _ d. refl) d ∙ e

current_lease-Keeps :
    (g : ℕ) (w : String) → Keeps (on_leases (Lease.current_lease rollout g (some w)))
current_lease-Keeps g w = on_residency-Keeps _

pub leases_of-Keeps : (gs : List ℕ) (ws : List String) → Keeps (leases_of gs ws)
unfolding leases_of
leases_of-Keeps [] [] = λ c. refl
leases_of-Keeps [] (w ∷ ws) = λ c. refl
leases_of-Keeps (g ∷ gs) [] = λ c. refl
leases_of-Keeps (g ∷ gs) (w ∷ ws) = λ c. grind (arith, leases_of-Keeps gs ws)

leases_for_replica-Keeps : (role : ReplicaController) → Keeps (leases_for_replica role)
unfolding leases_for_replica
leases_for_replica-Keeps role = leases_of-Keeps role.gpu_ids role.worker_ids

assert_leases_current-Keeps : (ls : List GpuLease) → Keeps (assert_leases_current ls)
unfolding assert_leases_current
assert_leases_current-Keeps [] = pure-Keeps tt
assert_leases_current-Keeps (l ∷ ls) = λ c. grind (arith, assert_leases_current-Keeps ls)

on_role-Keeps :
    {A : Type 0} (id : String) (act : Exec ReplicaController RoleError A) → Keeps (on_role id act)
on_role-Keeps id act = λ c. grind (arith)

activate_replica-Keeps :
    (meta : WeightMeta) (plan : WeightTransferPlan) (id : String)
    → Keeps (activate_replica meta plan id)
unfolding activate_replica
activate_replica-Keeps meta plan id =
    λ c. grind (arith, leases_for_replica-Keeps, assert_leases_current-Keeps)

activate_loop-Keeps :
    (meta : WeightMeta) (plan : WeightTransferPlan) (ids : List String) (active : WeightMeta)
    → Keeps (activate_loop meta plan active ids)
unfolding activate_loop
activate_loop-Keeps meta plan [] active = pure-Keeps active
activate_loop-Keeps meta plan (id ∷ ids) active =
    λ c. grind (arith, activate_replica-Keeps meta plan id, activate_loop-Keeps meta plan ids)

resume-Keeps : Keeps (on_rollout Coordinators.resume)
unfolding Coordinators.resume
resume-Keeps c = refl

activate_all-Keeps :
    (meta : WeightMeta) (plan : WeightTransferPlan) (ids : List String)
    → Keeps (activate_all meta plan ids)
unfolding activate_all Coordinators.resume
activate_all-Keeps meta plan ids = λ c. grind (arith, activate_loop-Keeps meta plan ids meta)

give_up-Keeps : (meta : WeightMeta) → Keeps (give_up meta)
unfolding give_up Coordinators.resume
give_up-Keeps meta = λ c. grind (arith)

try_activation-Keeps :
    (meta : WeightMeta) (plan : WeightTransferPlan) (ids : List String)
    → Keeps (try_activation meta plan ids)
unfolding try_activation
try_activation-Keeps meta plan ids =
    attempt-Keeps (activate_all meta plan ids) (λ e. give_up meta)
      (activate_all-Keeps meta plan ids) (λ e. give_up-Keeps meta)

activate_planned-Keeps :
    (w : World) (meta : WeightMeta) (ids : List String) (plan : WeightTransferPlan)
    → Keeps (activate_planned w meta ids plan)
unfolding activate_planned Coordinators.pause_for_weight
activate_planned-Keeps w meta ids plan = λ c. grind (arith, try_activation-Keeps meta plan ids)

activate_weight_for_rollout-Keeps :
    (w : World) (meta : WeightMeta) → Keeps (activate_weight_for_rollout w meta)
unfolding activate_weight_for_rollout
activate_weight_for_rollout-Keeps w meta = λ c. from c (
    of_plan (
      build_plan c.weight_transfer meta c.launch_config.gpu_plan.rollout_replicas
        c.launch_config.gpu_plan.trainer_ranks))
  where
    from :
        (c : Controller) (r : Result ControllerError WeightTransferPlan)
        → backlog ((planned r >>= λ plan. activate_planned w meta (replica_ids c) plan) c).1
          ≡ backlog c
    from c (ok plan) = activate_planned-Keeps w meta (replica_ids c) plan c
    from c (err e) = refl

bootstrap_unless-Keeps : (w : World) (o : Option WeightMeta) → Keeps (bootstrap_unless w o)
bootstrap_unless-Keeps w (some active) = pure-Keeps active
bootstrap_unless-Keeps w none = λ c. grind (arith, activate_weight_for_rollout-Keeps w)

pub bootstrap_initial_weight-Keeps : (w : World) → Keeps (bootstrap_initial_weight w)
unfolding bootstrap_initial_weight
bootstrap_initial_weight-Keeps w = λ c. grind (arith, bootstrap_unless-Keeps w)

of_generate-Keeps : (r : Result RoleError SampleRecord) → Keeps (of_generate r)
of_generate-Keeps (ok s) = pure-Keeps s
of_generate-Keeps (err e) = λ c. refl

complete-Keeps : (id : String) → Keeps (on_rollout (complete_request id))
unfolding complete_request
complete-Keeps id c = elim (Option-cases (lookup id c.rollout_manager.in_flight)) [
  | inl e ↦ rw e refl
  | inr (r, e) ↦ rw e refl
]

serve-Keeps :
    (w : World) (version : ℕ) (request : GenerationRequest) → Keeps (serve w version request)
unfolding serve complete_request
serve-Keeps w version request = λ c. grind (arith, leases_for_replica-Keeps)

-- The samples of the requests, one for each, and the backlog as before.
abbrev pub Served :
    ℕ → List QueuedPrompt → Result ControllerError (List SampleRecord) × Controller → Type 0
Served n b (ok samples, d) = (length samples ≡ n) × (backlog d ≡ b)
Served n b (err e, d) = Unit

pub serve_all-Served :
    (w : World) (version : ℕ) (requests : List GenerationRequest) (c : Controller)
    → Served (length requests) (backlog c) (serve_all w version requests c)
unfolding serve_all
serve_all-Served w version [] c = (refl, refl)
serve_all-Served w version (r ∷ rs) c =
    first (serve w version r c) (serve-Keeps w version r c) (λ d. serve_all-Served w version rs d)
  where
    rest :
        (sample : SampleRecord) (x : Result ControllerError (List SampleRecord) × Controller)
        → Served (length rs) (backlog c) x
        → Served
            (suc (length rs))
            (backlog c)
            (continue x.0 (λ samples. pure (sample ∷ samples)) x.1)
    rest sample (ok samples, d) (l, b) = (ap suc l, b)
    rest sample (err e, d) h = tt

    first :
        (x : Result ControllerError SampleRecord × Controller)
        → backlog x.1 ≡ backlog c
        → ((d : Controller) → Served (length rs) (backlog d) (serve_all w version rs d))
        → Served (suc (length rs)) (backlog c) (
            continue x.0
              (λ sample. serve_all w version rs >>= λ samples. pure (sample ∷ samples))
              x.1)
    first (ok sample, d) e later =
        rest sample (serve_all w version rs d)
          (subst (λ b. Served (length rs) b (serve_all w version rs d)) e (later d))
    first (err x, d) e later = tt

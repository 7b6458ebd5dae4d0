-- ===== src/Controller/Activating.antt =====
-- The activation of weights on the rollout replicas: `_activate_weight_for_rollout` and
-- `bootstrap_initial_weight` of nano_rl/runtime/controller.py.
use Prim.Native.String.{◌++◌ as str_append}
use nano_rl.Prelude.{ℕ, String, Option, none, some, List, [], ◌∷◌, map}
use nano_rl.Prelude.Equality.{string_eq}
use nano_rl.Prelude.Exec.{Result, ok, err, Exec, pure, raise, gets, modify, ◌>>=◌, ◌>>◌}
use nano_rl.Prelude.Dict.{lookup, insert}
use nano_rl.Slot.Names.{rollout}
use nano_rl.Slot.Types.{GpuLease}
use nano_rl.Slot.Lease as Lease
use nano_rl.Protocols.{WeightMeta}
use nano_rl.WeightRegistry as Registry
use nano_rl.WeightTransfer.{WeightTransferPlan, build_plan}
use nano_rl.Coordinators as Coordinators
use nano_rl.Roles.{ReplicaController, RoleError, activate_weight}
use nano_rl.Roles.Ranks.{bootstrap_weight_meta}
use nano_rl.Controller.{
  World, Controller, ControllerError, Action, lifted, on_leases, on_registry, on_rollout, or_error,
  attempt, tick, of_role, of_transfer, no_replica, lengths_differ,
}

-- `zip(role.gpu_ids, role.worker_ids, strict=True)`, with the lease of each pair
unfoldable pub leases_of : List ℕ → List String → Action (List GpuLease)
leases_of [] [] = pure []
leases_of (g ∷ gs) (w ∷ ws) = do
  lease ← on_leases (Lease.current_lease rollout g (some w))
  leases ← leases_of gs ws
  pure (lease ∷ leases)
leases_of _ _ = raise lengths_differ

-- `_rollout_leases_for_replica`
unfoldable pub leases_for_replica : ReplicaController → Action (List GpuLease)
unfolding leases_of
leases_for_replica role = leases_of role.gpu_ids role.worker_ids

unfoldable pub assert_leases_current : List GpuLease → Action (Unit {0})
assert_leases_current [] = pure tt
assert_leases_current (l ∷ ls) = do
  on_leases (Lease.assert_active rollout l.gpu_id (some l.holder_id) (some l.lease_epoch))
  assert_leases_current ls

-- `self.rollout_roles[replica_id]`
abbrev pub role_at : String → Action ReplicaController
role_at id c = or_error (no_replica id) (lookup id c.rollout_roles) c

-- A call on a role, which stays in the dict.
abbrev pub on_role : {A : Type 0} → String → Exec ReplicaController RoleError A → Action A
on_role id act = do
  role ← role_at id
  λ c. lifted of_role (λ r d. record d { rollout_roles = insert id r d.rollout_roles }) (act role) c

-- One round of the loop of `_activate_weight_for_rollout`.
unfoldable pub activate_replica : WeightMeta → WeightTransferPlan → String → Action WeightMeta
unfolding leases_for_replica assert_leases_current
activate_replica meta plan id = do
  role ← role_at id
  leases ← leases_for_replica role
  source ← or_error (no_replica id) (lookup id plan.sources)
  on_role id (activate_weight meta leases (some source))
  assert_leases_current leases
  on_registry (Registry.ack_activation meta.version_id id)

unfoldable pub activate_loop :
    WeightMeta → WeightTransferPlan → WeightMeta → List String → Action WeightMeta
unfolding activate_replica
activate_loop meta plan active [] = pure active
activate_loop meta plan active (id ∷ ids) = do
  next ← activate_replica meta plan id
  activate_loop meta plan next ids

abbrev pub key_of : String × ReplicaController → String
key_of (id, role) = id

abbrev pub replica_ids : Controller → List String
replica_ids c = map key_of c.rollout_roles

-- The body of the `try`.
unfoldable pub activate_all : WeightMeta → WeightTransferPlan → List String → Action WeightMeta
unfolding activate_loop
activate_all meta plan ids = do
  active ← activate_loop meta plan meta ids
  modify (λ c. record c { last_weight_transfer_plan = some plan })
  on_rollout Coordinators.resume
  pure active

-- The body of the `except`.
unfoldable pub give_up : WeightMeta → Action (Unit {0})
give_up meta = do on_registry (Registry.mark_failed meta.version_id); on_rollout Coordinators.resume

-- The `try` statement.
unfoldable pub try_activation : WeightMeta → WeightTransferPlan → List String → Action WeightMeta
unfolding activate_all give_up
try_activation meta plan ids = attempt (activate_all meta plan ids) (λ e. give_up meta)

abbrev pub planned : Result ControllerError WeightTransferPlan → Action WeightTransferPlan
planned (ok plan) = pure plan
planned (err e) = raise e

abbrev pub of_plan :
    {A : Type 0} → Result nano_rl.WeightTransfer.WeightTransferError A → Result ControllerError A
of_plan (ok a) = ok a
of_plan (err e) = err (of_transfer e)

-- What follows the planning.
unfoldable pub activate_planned :
    World → WeightMeta → List String → WeightTransferPlan → Action WeightMeta
unfolding try_activation
activate_planned w meta ids plan = do
  on_rollout
      (Coordinators.pause_for_weight (str_append "activate-v" (w.roles.decimal meta.version_id)))
  on_registry (Registry.begin_activation meta.version_id ids)
  try_activation meta plan ids

unfoldable pub activate_weight_for_rollout : World → WeightMeta → Action WeightMeta
unfolding activate_planned
activate_weight_for_rollout w meta = do
  ids ← gets replica_ids
  plan ← λ c.
      planned
        (of_plan (
          build_plan c.weight_transfer meta c.launch_config.gpu_plan.rollout_replicas
            c.launch_config.gpu_plan.trainer_ranks))
        c
  activate_planned w meta ids plan

abbrev pub text_or_none : Option String → String
text_or_none none = "None"
text_or_none (some s) = s

abbrev pub bootstrap_text : String → Option String → String
bootstrap_text model_path tokenizer_path =
    str_append "bootstrap:" (str_append model_path (str_append ":" (text_or_none tokenizer_path)))

abbrev pub bootstrap_unless : World → Option WeightMeta → Action WeightMeta
bootstrap_unless w (some active) = pure active
bootstrap_unless w none = do
  config ← gets (λ c. c.launch_config)
  t ← tick
  registered ← on_registry (
      Registry.register (
        bootstrap_weight_meta config.model_path config.tokenizer_path
          (w.hexdigest (bootstrap_text config.model_path config.tokenizer_path)) (w.clock t)))
  activate_weight_for_rollout w registered

unfoldable pub bootstrap_initial_weight : World → Action WeightMeta
unfolding activate_weight_for_rollout
bootstrap_initial_weight w = do
  active ← on_registry Registry.latest_active_global
  bootstrap_unless w active

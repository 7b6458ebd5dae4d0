-- ===== src/Roles.antt =====
-- The guards and the state of the roles of nano_rl/runtime/roles.py.
pub mod Leases
pub mod Ranks
pub mod Generating
mod Tests
use nano_rl.Prelude.{
  ℕ, suc, ◌+◌, max, String, Bool, true, false, not, Option, none, some, List, [], ◌∷◌, length,
  if◌then◌else◌,
}
use nano_rl.Prelude.Equality.{◌==◌, nat_eq, string_eq, contains, is_some_of}
use nano_rl.Prelude.Exec.{Result, ok, err, Exec, pure, raise_if, modify, ◌>>=◌, ◌>>◌}
use nano_rl.Prelude.Dict.{Dict, lookup, insert}
use Prim.Native.String.{◌++◌ as str_append}
use nano_rl.Slot.Names.{RoleName, rollout, trainer, role_eq}
use nano_rl.Slot.Types.{GpuLease}
use nano_rl.Protocols.{WeightMeta, TrainBatch}
use nano_rl.WeightTransfer.{WeightShardSource}

-- `SlotStateError` and the `ValueError` of a strict `zip`, with one constructor for each message.
pub data RoleError : Type 0 where
  different_lengths no_assigned_gpu : RoleError
  wrong_lease_count : ℕ → ℕ → RoleError
  duplicate_lease unexpected_gpu : ℕ → RoleError
  lease_role : RoleName → RoleError
  lease_gpu : ℕ → RoleError
  lease_holder : String → RoleError
  wrong_transfer_source : String → RoleError
  -- a `RuntimeError`: the active version and the version that the request asks for
  wrong_version : Option ℕ → ℕ → RoleError

pub record ReplicaController : Type 0 where
  pub replica_id : String
  pub gpu_ids : List ℕ
  pub worker_ids : List String
  pub active_policy_version : Option ℕ
  pub active_weight_checksum : Option String
  pub active_lease_epochs : Option (Dict ℕ ℕ)
  pub active_weight_source : Option WeightShardSource

-- `dict(zip(gpu_ids, worker_ids, strict=True))`
pub zip_dict : List ℕ → List String → Dict ℕ String → Result RoleError (Dict ℕ String)
zip_dict [] [] d = ok d
zip_dict (g ∷ gs) (w ∷ ws) d = zip_dict gs ws (insert g w d)
zip_dict _ _ d = err different_lengths

abbrev check_expected : Option String → GpuLease → Result RoleError (Unit {0})
check_expected none lease = err (unexpected_gpu lease.gpu_id)
check_expected (some holder) lease =
    if not (lease.role == rollout)
    then err (lease_role lease.role)
    else if not (lease.holder_id == holder)
    then err (lease_holder lease.holder_id)
    else ok tt

-- One round of the loop of `_assert_rollout_leases`.
pub check_lease : List ℕ → Dict ℕ String → GpuLease → Result RoleError (Unit {0})
check_lease seen expected lease =
    if contains lease.gpu_id seen
    then err (duplicate_lease lease.gpu_id)
    else check_expected (lookup lease.gpu_id expected) lease

pub check_leases : List ℕ → Dict ℕ String → List GpuLease → Result RoleError (Unit {0})
check_leases seen expected [] = ok tt
check_leases seen expected (l ∷ ls) = elim (check_lease seen expected l) [
  | err e ↦ err e
  | ok _ ↦ check_leases (l.gpu_id ∷ seen) expected ls
]

pub assert_rollout_leases : ReplicaController → List GpuLease → Result RoleError (Unit {0})
unfolding zip_dict check_leases
assert_rollout_leases c leases = elim (zip_dict c.gpu_ids c.worker_ids []) [
  | err e ↦ err e
  | ok expected ↦
      if not (length leases == length expected)
      then err (wrong_lease_count (length expected) (length leases))
      else check_leases [] expected leases
]

-- `{lease.gpu_id: lease.lease_epoch for lease in leases}`
pub epochs_of : List GpuLease → Dict ℕ ℕ → Dict ℕ ℕ
epochs_of [] d = d
epochs_of (l ∷ ls) d = epochs_of ls (insert l.gpu_id l.lease_epoch d)

abbrev is_foreign : Option WeightShardSource → String → Bool
is_foreign none id = false
is_foreign (some s) id = not (s.replica_id == id)

abbrev source_owner : Option WeightShardSource → String
source_owner none = ""
source_owner (some s) = s.replica_id

abbrev checked : Result RoleError (Unit {0}) → Exec ReplicaController RoleError (Unit {0})
checked r c = (r, c)

pub activate_weight :
    WeightMeta
    → List GpuLease
    → Option WeightShardSource
    → Exec ReplicaController RoleError (Unit {0})
unfolding assert_rollout_leases epochs_of
activate_weight meta leases source c =
    (do
      checked (assert_rollout_leases c leases)
      raise_if (is_foreign source c.replica_id) (wrong_transfer_source (source_owner source))
      modify (λ d. record d {
        active_policy_version = some meta.version_id;
        active_weight_checksum = some meta.checksum;
        active_lease_epochs = some (epochs_of leases []);
        active_weight_source = source;
      }))
      c

pub record TrainerRank : Type 0 where
  pub rank : ℕ
  pub gpu_id : Option ℕ
  pub group_epoch : ℕ
  pub train_step : ℕ

-- `_assert_trainer_lease`, with the id that the rank's lease is held under.
pub assert_trainer_lease : TrainerRank → String → GpuLease → Result RoleError (Unit {0})
assert_trainer_lease t expected_holder lease = elim t.gpu_id [
  | none ↦ err no_assigned_gpu
  | some gpu ↦
      if not (lease.role == trainer)
      then err (lease_role lease.role)
      else if not (lease.gpu_id == gpu)
      then err (lease_gpu lease.gpu_id)
      else if not (lease.holder_id == expected_holder)
      then err (lease_holder lease.holder_id)
      else ok tt
]

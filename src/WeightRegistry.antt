-- ===== src/WeightRegistry.antt =====
-- `WeightRegistryActorCore` of nano_rl/runtime/weight_registry.py: the versions of the weights, and the
-- activation that waits for the workers. A set of names is a list of which only membership counts.
pub mod Invariant
pub mod Keeping
pub mod Activation
pub mod Newest
mod Tests
use nano_rl.Prelude.{
  ℕ, String, Bool, true, false, not, Option, none, some, List, [], ◌∷◌, ltb, if◌then◌else◌,
}
use nano_rl.Prelude.Equality.{◌==◌, nat_eq, string_eq, contains, add}
use nano_rl.Prelude.Exec.{
  Result, ok, err, Exec, pure, raise, gets, or_raise, raise_if, modify, ◌>>=◌, ◌>>◌,
}
use nano_rl.Prelude.Dict.{Dict, lookup, insert}
use nano_rl.Protocols.{WeightMeta, WeightStatus, registered, activating, active_global, failed}

pub record ActivationState : Type 0 where
  pub version_id : ℕ
  pub required_workers : List String
  pub acked_workers : List String

pub record WeightRegistry : Type 0 where
  pub versions : Dict ℕ WeightMeta
  pub activation : Option ActivationState
  pub latest_registered : Option ℕ
  pub latest_active_global : Option ℕ

-- `WeightRegistryError`, with one constructor for each message.
pub data RegistryError : Type 0 where
  checksum_differs : ℕ → RegistryError
  no_required_workers : RegistryError
  version_failed : ℕ → RegistryError
  no_activation : ℕ → RegistryError
  worker_not_required : String → ℕ → RegistryError
  unknown_version : ℕ → RegistryError
  -- the `KeyError` of a dict
  key_error : ℕ → RegistryError

-- `__init__`
pub create : WeightRegistry
create = record {
  versions = [];
  activation = none;
  latest_registered = none;
  latest_active_global = none;
}

abbrev pub Action : Type 0 → Type 0
Action A = Exec WeightRegistry RegistryError A

-- `meta.model_copy(update={"status": status})`
abbrev pub with_status : WeightStatus → WeightMeta → WeightMeta
with_status status meta = record meta { status = status }

abbrev pub put_version : ℕ → WeightMeta → Action (Unit {0})
put_version version_id meta =
    modify (λ r. record r { versions = insert version_id meta r.versions })

pub require_version : ℕ → Action WeightMeta
require_version version_id r =
    or_raise (lookup version_id r.versions) (unknown_version version_id) r

-- `latest is None or version_id > latest`
abbrev is_later : Option ℕ → ℕ → Bool
is_later none version_id = true
is_later (some latest) version_id = ltb latest version_id

abbrev register_new : WeightMeta → WeightRegistry → WeightRegistry
register_new meta r = record r {
  versions = insert meta.version_id meta r.versions;
  latest_registered =
      if is_later r.latest_registered meta.version_id
      then some meta.version_id
      else r.latest_registered;
}

abbrev register_found : WeightMeta → Option WeightMeta → Action WeightMeta
register_found meta none = do
  modify (register_new (with_status registered meta))
  pure (with_status registered meta)
register_found meta (some existing) = do
  raise_if (not (existing.checksum == meta.checksum)) (checksum_differs meta.version_id)
  pure existing

pub register : WeightMeta → Action WeightMeta
register meta r = register_found meta (lookup meta.version_id r.versions) r

abbrev is_empty : List String → Bool
is_empty [] = true
is_empty (x ∷ xs) = false

abbrev is_failed : WeightStatus → Bool
is_failed WeightStatus.failed = true
is_failed _ = false

pub begin_activation : ℕ → List String → Action WeightMeta
unfolding require_version
begin_activation version_id required_workers = do
  raise_if (is_empty required_workers) no_required_workers
  meta ← require_version version_id
  raise_if (is_failed meta.status) (version_failed version_id)
  put_version version_id (with_status activating meta)
  modify (λ r. record r {
    activation = some (record {
      version_id = version_id;
      required_workers = required_workers;
      acked_workers = [];
    });
  })
  pure (with_status activating meta)

-- Each element of the first set is in the second.
abbrev pub all_in : List String → List String → Bool
all_in [] ys = true
all_in (x ∷ xs) ys = if contains x ys then all_in xs ys else false

-- `==` of sets
abbrev pub same_set : List String → List String → Bool
same_set xs ys = if all_in xs ys then all_in ys xs else false

-- The last required worker has acknowledged.
abbrev complete : ℕ → Action WeightMeta
complete version_id = do
  meta ← require_version version_id
  put_version version_id (with_status active_global meta)
  modify (λ r. record r { latest_active_global = some version_id; activation = none })
  pure (with_status active_global meta)

abbrev ack_in : ActivationState → ℕ → String → Action WeightMeta
ack_in a version_id worker_id = do
  raise_if (not (a.version_id == version_id)) (no_activation version_id)
  raise_if (not (contains worker_id a.required_workers)) (worker_not_required worker_id version_id)
  modify (λ r. record r {
    activation = some (record a { acked_workers = add worker_id a.acked_workers });
  })
  if same_set (add worker_id a.acked_workers) a.required_workers
      then complete version_id
      else require_version version_id

abbrev ack_found : Option ActivationState → ℕ → String → Action WeightMeta
ack_found none version_id worker_id = raise (no_activation version_id)
ack_found (some a) version_id worker_id = ack_in a version_id worker_id

pub ack_activation : ℕ → String → Action WeightMeta
unfolding require_version
ack_activation version_id worker_id r = ack_found r.activation version_id worker_id r

-- `if self._activation and self._activation.version_id == version_id: self._activation = None`
abbrev pub cancel : ℕ → Option ActivationState → Option ActivationState
cancel version_id none = none
cancel version_id (some a) = if a.version_id == version_id then none else some a

pub mark_failed : ℕ → Action WeightMeta
unfolding require_version
mark_failed version_id = do
  meta ← require_version version_id
  put_version version_id (with_status failed meta)
  modify (λ r. record r { activation = cancel version_id r.activation })
  pure (with_status failed meta)

-- `self._versions[version_id]`, or None
abbrev latest : Option ℕ → Action (Option WeightMeta)
latest none r = (ok none, r)
latest (some version_id) r =
    (do meta ← or_raise (lookup version_id r.versions) (key_error version_id); pure (some meta)) r

pub latest_registered : Action (Option WeightMeta)
latest_registered r = latest r.latest_registered r

pub latest_active_global : Action (Option WeightMeta)
latest_active_global r = latest r.latest_active_global r

pub get : ℕ → Action WeightMeta
unfolding require_version
get version_id = require_version version_id

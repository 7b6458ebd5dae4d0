-- ===== src/Backends/Rollout/Leases.antt =====
-- The lease guard of `MockRolloutBackend`, and the calls that change its state.
use nano_rl.Prelude.{
  ℕ, ◌+◌, String, Bool, true, false, not, Option, none, some, List, [], ◌∷◌, map, length, ◌&&◌,
  if◌then◌else◌,
}
use nano_rl.Prelude.Equality.{HasEq, ◌==◌, nat_eq, string_eq, contains}
use nano_rl.Prelude.Exec.{Result, ok, err, gets, modify, ◌>>◌}
use nano_rl.Slot.Names.{rollout, role_eq}
use nano_rl.Slot.Types.{GpuLease}
use nano_rl.Protocols.{WeightMeta}
use nano_rl.WeightTransfer.{WeightShardSource}
use nano_rl.Backends.Rollout.{
  RolloutError, RolloutConfig, RolloutBackend, Action, set_of, is_empty, no_leases,
  duplicate_leases, other_gpus, lease_role, wrong_holder, other_holders,
}

abbrev gpu_of : GpuLease → ℕ
gpu_of l = l.gpu_id

abbrev holder_of : GpuLease → String
holder_of l = l.holder_id

abbrev all_in : {A : Type 0} ⦃e : HasEq A⦄ → List A → List A → Bool
all_in [] ys = true
all_in (x ∷ xs) ys = if contains x ys then all_in xs ys else false

-- `==` of sets
abbrev same_set : {A : Type 0} ⦃e : HasEq A⦄ → List A → List A → Bool
same_set xs ys = if all_in xs ys then all_in ys xs else false

pub check_roles : List GpuLease → Result RolloutError (Unit {0})
check_roles [] = ok tt
check_roles (l ∷ ls) = if not (l.role == rollout) then err (lease_role l.role) else check_roles ls

-- `expected_holders_by_gpu[gpu_id]`, the holder at the place of the GPU
abbrev holder_for : ℕ → List ℕ → List String → Option String
holder_for gpu [] hs = none
holder_for gpu (g ∷ gs) [] = none
holder_for gpu (g ∷ gs) (h ∷ hs) = if g == gpu then some h else holder_for gpu gs hs

abbrev is_holder : Option String → String → Bool
is_holder none h = false
is_holder (some x) h = x == h

pub check_holders : RolloutConfig → List GpuLease → Result RolloutError (Unit {0})
check_holders c [] = ok tt
check_holders c (l ∷ ls) =
    if not (is_holder (holder_for l.gpu_id c.gpu_ids c.holder_ids) l.holder_id)
    then err (wrong_holder l.gpu_id l.holder_id)
    else check_holders c ls

pub check_holder : Option String → List GpuLease → Result RolloutError (Unit {0})
check_holder none ls = ok tt
check_holder (some h) [] = ok tt
check_holder (some h) (l ∷ ls) =
    if not (l.holder_id == h)
    then err (wrong_holder l.gpu_id l.holder_id)
    else check_holder (some h) ls

-- The holders, by GPU, together or the one that is configured.
abbrev check_owners : RolloutConfig → List GpuLease → Result RolloutError (Unit {0})
check_owners c ls =
    if not (is_empty c.gpu_ids) && not (is_empty c.holder_ids)
    then check_holders c ls
    else if not (is_empty c.holder_ids) && not (same_set (map holder_of ls) c.holder_ids)
    then err (other_holders (map holder_of ls))
    else check_holder c.holder_id ls

abbrev after_roles :
    Result RolloutError (Unit {0}) → RolloutConfig → List GpuLease → Result RolloutError (Unit {0})
after_roles (err e) c ls = err e
after_roles (ok _) c ls = check_owners c ls

-- `_assert_rollout_lease`; a lease that is given alone comes as a list of one.
unfoldable pub check_leases : RolloutConfig → List GpuLease → Result RolloutError (Unit {0})
unfolding check_roles check_holders check_holder
check_leases c ls =
    if is_empty ls
    then err no_leases
    else if not (length (set_of (map gpu_of ls) []) == length ls)
    then err duplicate_leases
    else if not (is_empty c.gpu_ids) && not (same_set (map gpu_of ls) c.gpu_ids)
    then err (other_gpus (map gpu_of ls))
    else after_roles (check_roles ls) c ls

abbrev pub assert_rollout_lease : List GpuLease → Action (Unit {0})
assert_rollout_lease ls b = (check_leases b.config ls, b)

pub activate_weight : WeightMeta → List GpuLease → Option WeightShardSource → Action (Unit {0})
activate_weight meta ls source = do
  assert_rollout_lease ls
  modify (λ b. record b {
    active_weight = some meta;
    active_weight_source = source;
    activation_count = b.activation_count + 1;
    offloaded = false;
  })

abbrev version_of : Option WeightMeta → Option ℕ
version_of none = none
version_of (some meta) = some meta.version_id

-- The dict of `_residency_state`.
pub record Residency : Type 0 where
  pub residency : String
  pub action : String
  pub active_weight_version : Option ℕ
  pub offloaded : Bool
  pub gpu_ids : List ℕ

abbrev residency_state : String → String → RolloutBackend → Residency
residency_state residency action b = record {
  residency = residency;
  action = action;
  active_weight_version = version_of b.active_weight;
  offloaded = b.offloaded;
  gpu_ids = b.config.gpu_ids;
}

pub offload : List GpuLease → Action Residency
offload ls = do
  assert_rollout_lease ls
  modify (λ b. record b { offloaded = true })
  gets (residency_state "offloaded" "mock_offload")

pub wake : List GpuLease → Action Residency
wake ls = do
  assert_rollout_lease ls
  modify (λ b. record b { offloaded = false })
  gets (residency_state "active" "mock_wake")

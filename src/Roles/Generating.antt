-- ===== src/Roles/Generating.antt =====
-- The samples that the roles of nano_rl/runtime/roles.py generate. Log-probabilities and rewards are
-- floats, and left out.
use Prim.Native.String.{◌++◌ as str_append}
use nano_rl.Prelude.{
  ℕ, ◌≤◌, min, max, String, ◌≡◌, refl, if_rule, not, Option, none, some, List, length, take,
  length-take, ◌≢◌, ◌⊎◌, arith, inl, inr, if◌then◌else◌,
}
use nano_rl.Prelude.Equality.{nat_eq, is_some_of, is_some_of-eq, is_some_of_refl}
use nano_rl.Prelude.Exec.{Result, ok, err}
use nano_rl.Slot.Types.{GpuLease}
use nano_rl.Protocols.{SampleRecord}
use nano_rl.Coordinators.{GenerationRequest}
use nano_rl.Roles.{RoleError, ReplicaController, assert_rollout_leases, wrong_version}
use nano_rl.Roles.Ranks.{RolloutWorker, assert_rollout_lease}

-- What is not this code's: the bytes of `sha256`, the number of words of `split`, and the decimal text
-- of a number.
pub record Outside : Type 0 where
  pub sha256 : String → List ℕ
  pub words : String → ℕ
  pub decimal : ℕ → String

pub stable_tokens : Outside → String → List ℕ
stable_tokens o text = take (min 16 (max 1 (o.words text))) (o.sha256 text)

abbrev pub response_of : Outside → GenerationRequest → String
response_of o request =
    str_append request.prompt
      (str_append " :: response@v" (o.decimal request.target_policy_version))

-- The record of both `generate` methods, made at the instant `now`.
abbrev pub sample_of : Outside → ℕ → GenerationRequest → SampleRecord
sample_of o now request = record {
  sample_id = request.request_id;
  policy_version = request.target_policy_version;
  tokens = stable_tokens o (response_of o request);
  created_at = now;
  expires_at = none;
  response_tokens = some (length (stable_tokens o (response_of o request)));
  policy_segments = none;
}

abbrev guarded :
    Result RoleError (Unit {0})
    → Option ℕ
    → Outside
    → ℕ
    → GenerationRequest
    → Result RoleError SampleRecord
guarded (err e) version o now request = err e
guarded (ok _) version o now request =
    if not (is_some_of version request.target_policy_version)
    then err (wrong_version version request.target_policy_version)
    else ok (sample_of o now request)

-- `RolloutReplicaControllerRole.generate`
pub generate :
    Outside
    → ℕ
    → GenerationRequest
    → List GpuLease
    → ReplicaController
    → Result RoleError SampleRecord
generate o now request leases c =
    guarded (assert_rollout_leases c leases) c.active_policy_version o now request

-- `RolloutWorkerRole.generate`
pub generate_on_worker :
    Outside → ℕ → GenerationRequest → GpuLease → RolloutWorker → Result RoleError SampleRecord
generate_on_worker o now request lease w =
    guarded (assert_rollout_lease w lease) w.active_policy_version o now request

-- A sample of the request: of the version that is active, with 1 to 16 tokens, which it counts.
pub record IsSampleOf (request : GenerationRequest) (active : Option ℕ) (s : SampleRecord)
    : Type 0 where
  pub id : s.sample_id ≡ request.request_id
  pub version : s.policy_version ≡ request.target_policy_version
  pub is_active : active ≡ some s.policy_version
  pub at_least : 1 ≤ length s.tokens
  pub at_most : length s.tokens ≤ 16
  pub counted : s.response_tokens ≡ some (length s.tokens)

-- What a generation gives: an error of the lease guard or of the version guard, or a sample.
abbrev pub Generated :
    GenerationRequest → ReplicaController → List GpuLease → Result RoleError SampleRecord → Type 0
Generated request c leases (ok s) =
    (assert_rollout_leases c leases ≡ ok tt) × IsSampleOf request c.active_policy_version s
Generated request c leases (err e) =
    (assert_rollout_leases c leases ≡ err e)
    ⊎ ((e ≡ wrong_version c.active_policy_version request.target_policy_version)
        × (c.active_policy_version ≢ some request.target_policy_version))

stable_tokens-bounds :
    (o : Outside) (text : String)
    → 16 ≤ length (o.sha256 text)
    → (1 ≤ length (stable_tokens o text)) × (length (stable_tokens o text) ≤ 16)
unfolding stable_tokens
stable_tokens-bounds o text long =
    omega (arith, length-take (min 16 (max 1 (o.words text))) (o.sha256 text), long)

sample_of-IsSampleOf :
    (o : Outside) (now : ℕ) (request : GenerationRequest) (active : Option ℕ)
    → ((text : String) → 16 ≤ length (o.sha256 text))
    → active ≡ some request.target_policy_version
    → IsSampleOf request active (sample_of o now request)
sample_of-IsSampleOf o now request active long e =
    let (low, high) = stable_tokens-bounds o (response_of o request) (long _) in
    record {
      id = refl;
      version = refl;
      is_active = e;
      at_least = low;
      at_most = high;
      counted = refl;
    }

guarded-Generated :
    (o : Outside) (now : ℕ) (request : GenerationRequest) (leases : List GpuLease)
    (c : ReplicaController) (r : Result RoleError (Unit {0}))
    → ((text : String) → 16 ≤ length (o.sha256 text))
    → assert_rollout_leases c leases ≡ r
    → Generated request c leases (guarded r c.active_policy_version o now request)
guarded-Generated o now request leases c (err e) long h = inl h
guarded-Generated o now request leases c (ok _) long h =
    let version = request.target_policy_version in
    if_rule (Generated request c leases) (not (is_some_of c.active_policy_version version))
      (err (wrong_version c.active_policy_version version)) (ok (sample_of o now request))
      (λ differs. inr (
        refl,
        λ same. ground (arith, differs, is_some_of_refl c.active_policy_version version same),
      ))
      (λ same. (
        h,
        sample_of-IsSampleOf o now request c.active_policy_version long
            (is_some_of-eq c.active_policy_version version (ground (arith, same))),
      ))

-- When `sha256` gives at least 16 bytes: a generation that goes through has leases that the replica
-- accepts, and its sample has the request's id, the request's version, which is the active one, and 1
-- to 16 tokens, counted right. One that raises has the error of the lease guard, or that of a replica
-- whose active version is another.
pub generate-Generated :
    (o : Outside) (now : ℕ) (request : GenerationRequest) (leases : List GpuLease)
    (c : ReplicaController)
    → ((text : String) → 16 ≤ length (o.sha256 text))
    → Generated request c leases (generate o now request leases c)
unfolding generate
generate-Generated o now request leases c long =
    guarded-Generated o now request leases c (assert_rollout_leases c leases) long refl

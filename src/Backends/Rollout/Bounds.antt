-- ===== src/Backends/Rollout/Bounds.antt =====
-- How long the samples of nano_rl/runtime/backends/mock_rollout_backend.py are.
use nano_rl.Prelude.{
  ℕ, ◌-◌, ◌≤◌, ◌<◌, max, String, ◌≡◌, true, false, none, some, List, length, All, if_rule, arith,
  ◌⊎◌,
}
use nano_rl.Prelude.Equality.{◌==◌, string_eq}
use nano_rl.Prelude.Exec.{Result, ok, err}
use nano_rl.Protocols.{WeightMeta, PolicySegment}
use nano_rl.Slot.Types.{GpuLease}
use nano_rl.Backends.Rollout.{
  RolloutError, RolloutConfig, RolloutBackend, not_active, is_offloaded, invalid_template,
  format_raised, other_version,
}
use nano_rl.Backends.Rollout.Leases.{check_leases}
use nano_rl.Backends.Rollout.Sampling.{Draws, cap_of, minimum_of, response_token_count, max_tokens}
use nano_rl.Backends.Rollout.Generating.{GenerationOutput}

-- The count is between the smallest and the largest that are configured, as far as the limit lets.
pub response_token_count-bounds :
    (d : Draws) (c : RolloutConfig) (seed : List ℕ) (limit : ℕ)
    → (minimum_of c limit ≤ response_token_count d c seed limit)
      × (response_token_count d c seed limit ≤ cap_of c limit)
unfolding response_token_count
response_token_count-bounds d c seed limit =
    if_rule (λ n. (minimum_of c limit ≤ n) × (n ≤ cap_of c limit))
      (c.response_length_distribution == "fixed") _ _ (λ _. (omega arith, omega arith))
      (λ _. (omega arith, omega arith))

-- A token of the vocabulary.
abbrev pub IsToken : ℕ → Type 0
IsToken n = n < 32000

module _ (d : Draws) (hashes : (block : List ℕ) → 1 ≤ length (d.sha256 block)) where
  -- A sample of a request with so many prompt tokens.
  abbrev pub Bounded : RolloutConfig → ℕ → GenerationOutput → Type 0
  Bounded c prompt_tokens o =
      (1 ≤ length o.tokens)
      × (length o.tokens ≤ c.max_response_tokens)
      × (length o.tokens ≤ max 1 (c.max_sequence_tokens - prompt_tokens))
      × (o.response_tokens ≡ length o.tokens)
      × All IsToken o.tokens

  -- A segment of the whole sample, of this version.
  abbrev pub Covers : ℕ → ℕ → PolicySegment → Type 0
  Covers version count s =
      (s.start_token ≡ 0) × (s.end_token ≡ count) × (s.policy_version ≡ version)

  -- What an exception of the template becomes.
  abbrev pub TemplateRefused : RolloutError → Type 0
  TemplateRefused e = (e ≡ invalid_template) ⊎ ((name : String) × (e ≡ format_raised name))

  -- Why a generation fails.
  abbrev pub Refused : RolloutBackend → List GpuLease → ℕ → RolloutError → Type 0
  Refused b ls version e =
      (check_leases b.config ls ≡ err e)
      ⊎ ((e ≡ not_active) × (b.active_weight ≡ none))
      ⊎ ((e ≡ is_offloaded) × (b.offloaded ≡ true))
      ⊎ ((weight : WeightMeta) × (b.active_weight ≡ some weight)
          × (e ≡ other_version weight.version_id version)
          × ¬ (weight.version_id ≡ version))
      ⊎ (max_tokens b.config ≡ err e)
      ⊎ (TemplateRefused e × ¬ (b.config.response_template ≡ none))

  -- When a generation goes through, and what it gives then.
  abbrev pub Sampled :
      RolloutBackend → List GpuLease → ℕ → ℕ → Result RolloutError GenerationOutput → Type 0
  Sampled b ls version prompt_tokens (err e) = Refused b ls version e
  Sampled b ls version prompt_tokens (ok o) =
      (check_leases b.config ls ≡ ok tt)
      × (b.offloaded ≡ false)
      × (weight : WeightMeta) × (b.active_weight ≡ some weight)
      × (weight.version_id ≡ version)
      × (o.policy_version ≡ version)
      × (o.weight_checksum ≡ weight.checksum)
      × All (Covers version (length o.tokens)) o.policy_segments
      × Bounded b.config prompt_tokens o

-- ===== src/Backends/Rollout/Sampling.antt =====
-- How many tokens a mock sample has, and which: `_response_token_count`, `_deterministic_tokens` and
-- their helpers of nano_rl/runtime/backends/mock_rollout_backend.py.
use nano_rl.Prelude.{
  ℕ, zero, suc, ◌+◌, ◌-◌, ◌*◌, ◌/◌, ◌%◌, min, max, none, some, List, [], ◌∷◌, ◌++◌, length, ltb,
  if◌then◌else◌,
}
use nano_rl.Prelude.Equality.{◌==◌, nat_eq, string_eq}
use nano_rl.Prelude.Exec.{Result, ok, err}
use nano_rl.Backends.Rollout.{
  RolloutError, RolloutConfig, integer, no_integer, max_tokens_not_integer, max_tokens_below_one,
}

-- Which of the four ranges of the chat mixture a draw of `random()` is in.
pub data Share : Type 0 where
  below_60 below_90 below_98 above : Share

-- What is not this code's: `sha256` on bytes, and the generator that a seed gives. `lognormal` is the
-- rounded draw of `lognormvariate` about a mean.
pub record Draws : Type 0 where
  pub sha256 : List ℕ → List ℕ
  pub share : List ℕ → Share
  pub randint : List ℕ → ℕ → ℕ → ℕ
  pub lognormal : List ℕ → ℕ → ℕ

abbrev at_least_one : ℕ → Result RolloutError ℕ
at_least_one n = if ltb n 1 then err max_tokens_below_one else ok n

-- `_max_tokens`
unfoldable pub max_tokens : RolloutConfig → Result RolloutError ℕ
max_tokens c = elim c.sampling_max_tokens [
  | none ↦ at_least_one c.max_response_tokens
  | some (integer n) ↦ at_least_one n
  | some no_integer ↦ err max_tokens_not_integer
]

-- `_sample_chat_mixture_response_tokens`
abbrev pub chat_mixture : Draws → RolloutConfig → List ℕ → ℕ → ℕ → ℕ
chat_mixture d c seed minimum cap = elim (d.share seed) [
  | below_60 ↦ d.randint seed minimum (max minimum (min cap c.mean_response_tokens))
  | below_90 ↦
      let low = max minimum (c.mean_response_tokens / 2) in
      d.randint seed low (max low (min cap (c.mean_response_tokens * 2)))
  | below_98 ↦
      let low = max minimum c.mean_response_tokens in
      d.randint seed low (max low (min cap (c.mean_response_tokens * 4)))
  | above ↦ d.randint seed (max minimum (cap / 2)) cap
]

abbrev pub cap_of : RolloutConfig → ℕ → ℕ
cap_of c limit = max 1 (min limit c.max_response_tokens)

abbrev pub minimum_of : RolloutConfig → ℕ → ℕ
minimum_of c limit = min c.min_response_tokens (cap_of c limit)

-- The draw of `_response_token_count` before it is clamped.
abbrev raw_count : Draws → RolloutConfig → List ℕ → ℕ → ℕ → ℕ
raw_count d c seed minimum cap =
    if c.response_length_distribution == "uniform"
    then d.randint seed minimum cap
    else if c.response_length_distribution == "lognormal"
    then d.lognormal seed (max minimum c.mean_response_tokens)
    else if c.response_length_distribution == "chat_mixture"
    then chat_mixture d c seed minimum cap
    else cap

-- The bytes of ":response-length"
abbrev length_tag : List ℕ
length_tag =
    58 ∷ 114 ∷ 101 ∷ 115 ∷ 112 ∷ 111 ∷ 110 ∷ 115 ∷ 101 ∷ 45 ∷ 108 ∷ 101 ∷ 110 ∷ 103 ∷ 116 ∷ 104 ∷ []

unfoldable pub response_token_count : Draws → RolloutConfig → List ℕ → ℕ → ℕ
response_token_count d c seed limit =
    if c.response_length_distribution == "fixed"
    then cap_of c limit
    else max (minimum_of c limit) (
        min (cap_of c limit)
          (raw_count d c (seed ++ length_tag) (minimum_of c limit) (cap_of c limit)))

-- The inner loop of `_deterministic_tokens`: two bytes make a token, and a last byte alone makes one.
unfoldable pub block_tokens : ℕ → List ℕ → List ℕ
block_tokens zero bytes = []
block_tokens (suc left) [] = []
block_tokens (suc left) (a ∷ []) = a % 32000 ∷ []
block_tokens (suc left) (a ∷ b ∷ bytes) = (a * 256 + b) % 32000 ∷ block_tokens left bytes

-- The outer loop, for so many tokens; each round hashes the block of the one before. As many rounds as
-- tokens suffice when a digest is not empty.
unfoldable pub token_loop : Draws → ℕ → List ℕ → ℕ → List ℕ
unfolding block_tokens
token_loop d zero block left = []
token_loop d (suc rounds) block zero = []
token_loop d (suc rounds) block (suc left) =
    let digest = d.sha256 block in
    let tokens = block_tokens (suc left) digest in
    tokens ++ token_loop d rounds digest (suc left - length tokens)

unfoldable pub deterministic_tokens : Draws → List ℕ → ℕ → List ℕ
unfolding token_loop
deterministic_tokens d seed count = token_loop d count seed count

-- ===== src/Backends/Rollout/Generating.antt =====
-- `MockRolloutBackend.generate` of nano_rl/runtime/backends/mock_rollout_backend.py.
use Prim.Native.String.{◌++◌ as str_append}
use nano_rl.Prelude.{
  ℕ, ◌-◌, min, max, String, not, Option, none, some, List, [], ◌∷◌, length, ltb, if◌then◌else◌,
}
use nano_rl.Prelude.Equality.{◌==◌, nat_eq, string_eq}
use nano_rl.Prelude.Exec.{Result, ok, err}
use nano_rl.Slot.Types.{GpuLease}
use nano_rl.Protocols.{WeightMeta, PolicySegment}
use nano_rl.Backends.Rollout.{
  RolloutError, RolloutConfig, RawCount, RolloutBackend, integer, no_integer, not_active,
  is_offloaded, other_version, invalid_template, format_raised,
}
use nano_rl.Backends.Rollout.Leases.{check_leases}
use nano_rl.Backends.Rollout.Sampling.{
  Draws, max_tokens, response_token_count, deterministic_tokens,
}

-- What `str.format` raises: an `IndexError` or a `KeyError`, or an exception of another kind.
pub data FormatError : Type 0 where
  no_such_field : FormatError
  other_exception : String → FormatError

-- What is not this code's: the number of words of a prompt, the bytes of `json.dumps` of a request
-- (its prompt, its count of prompt tokens and its id, with the active weights), the hexadecimal digest
-- of bytes and its beginnings, the decimal text of a number, and `str.format` of a template, which may
-- raise.
pub record Texts : Type 0 where
  pub words : String → ℕ
  pub payload : RolloutConfig → WeightMeta → String → ℕ → Option String → List ℕ
  pub hexdigest : List ℕ → String
  pub first : ℕ → String → String
  pub decimal : ℕ → String
  pub format :
      String → String → ℕ → ℕ → WeightMeta → Option String → String → Result FormatError String

pub record GenerationOutput : Type 0 where
  pub request_id : String
  pub prompt : String
  pub response : String
  pub tokens : List ℕ
  pub finish_reason : String
  pub policy_version : ℕ
  pub weight_checksum : String
  -- of the metadata
  pub prompt_tokens : ℕ
  pub response_tokens : ℕ
  pub policy_segments : List PolicySegment

-- `_coerce_prompt_tokens`
unfoldable pub coerce_prompt_tokens : Texts → Option RawCount → String → ℕ
coerce_prompt_tokens t (some (integer n)) prompt = if ltb 0 n then n else max 1 (t.words prompt)
coerce_prompt_tokens t (some no_integer) prompt = max 1 (t.words prompt)
coerce_prompt_tokens t none prompt = max 1 (t.words prompt)

-- `min(self._max_tokens(), max(1, max_sequence_tokens - prompt_tokens))`; the maximum with 1 makes a
-- difference below zero count as 0 does.
abbrev pub token_limit : RolloutConfig → ℕ → ℕ → ℕ
token_limit c limit prompt_tokens = min limit (max 1 (c.max_sequence_tokens - prompt_tokens))

-- The `try` of `_render_response`
abbrev pub rendered : Result FormatError String → Result RolloutError String
rendered (err no_such_field) = err invalid_template
rendered (err (other_exception name)) = err (format_raised name)
rendered (ok s) = ok s

-- The text of the response: the template's, or the one with the prefix.
abbrev pub text_of_response :
    Texts
    → RolloutConfig
    → WeightMeta
    → String
    → ℕ
    → ℕ
    → Option String
    → String
    → Option String
    → Result RolloutError String
text_of_response t c weight prompt prompt_tokens count request_id digest (some template) =
    rendered (t.format template prompt prompt_tokens count weight request_id digest)
text_of_response t c weight prompt prompt_tokens count request_id digest none = ok (
    str_append c.response_prefix (
      str_append "[v" (
        str_append (t.decimal weight.version_id)
          (str_append ":" (str_append (t.first 12 digest) (str_append "] " prompt))))))

abbrev pub response_text :
    Texts
    → RolloutConfig
    → WeightMeta
    → String
    → ℕ
    → ℕ
    → Option String
    → String
    → Result RolloutError String
response_text t c weight prompt prompt_tokens count request_id digest =
    text_of_response t c weight prompt prompt_tokens count request_id digest c.response_template

abbrev pub segments_of : RolloutConfig → ℕ → ℕ → List PolicySegment
segments_of c version count =
    if c.include_policy_segments
    then record { start_token = 0; end_token = count; policy_version = version } ∷ []
    else []

abbrev pub id_or : Texts → Option String → String → String
id_or t none digest = str_append "mock-" (t.first 16 digest)
id_or t (some id) digest = if id == "" then str_append "mock-" (t.first 16 digest) else id

-- The output for a response text.
abbrev pub output :
    Texts
    → Draws
    → RolloutConfig
    → WeightMeta
    → String
    → ℕ
    → ℕ
    → ℕ
    → Option String
    → List ℕ
    → Result RolloutError String
    → Result RolloutError GenerationOutput
output t d c weight prompt version prompt_tokens count request_id seed (err e) = err e
output t d c weight prompt version prompt_tokens count request_id seed (ok response) = ok (record {
  request_id = id_or t request_id (t.hexdigest seed);
  prompt = prompt;
  response = response;
  tokens = deterministic_tokens d seed count;
  finish_reason = c.finish_reason;
  policy_version = version;
  weight_checksum = weight.checksum;
  prompt_tokens = prompt_tokens;
  response_tokens = count;
  policy_segments = segments_of c version (length (deterministic_tokens d seed count));
})

-- From the limit of `_max_tokens` on.
abbrev pub generate_with :
    Texts
    → Draws
    → RolloutConfig
    → WeightMeta
    → String
    → ℕ
    → ℕ
    → Option String
    → Result RolloutError ℕ
    → Result RolloutError GenerationOutput
generate_with t d c weight prompt version prompt_tokens request_id (err e) = err e
generate_with t d c weight prompt version prompt_tokens request_id (ok limit) =
    let seed = t.payload c weight prompt prompt_tokens request_id in
    let count = response_token_count d c seed (token_limit c limit prompt_tokens) in
    output t d c weight prompt version prompt_tokens count request_id seed
      (response_text t c weight prompt prompt_tokens count request_id (t.hexdigest seed))

-- With an active weight.
abbrev pub generate_active :
    Texts
    → Draws
    → RolloutBackend
    → WeightMeta
    → String
    → ℕ
    → Option RawCount
    → Option String
    → Result RolloutError GenerationOutput
generate_active t d b weight prompt version given request_id =
    if b.offloaded
    then err is_offloaded
    else if not (weight.version_id == version)
    then err (other_version weight.version_id version)
    else generate_with t d b.config weight prompt version (coerce_prompt_tokens t given prompt)
        request_id (max_tokens b.config)

abbrev pub generate_weighted :
    Texts
    → Draws
    → String
    → ℕ
    → Option RawCount
    → Option String
    → RolloutBackend
    → Option WeightMeta
    → Result RolloutError GenerationOutput
generate_weighted t d prompt version given request_id b none = err not_active
generate_weighted t d prompt version given request_id b (some weight) =
    generate_active t d b weight prompt version given request_id

-- After the lease guard.
abbrev pub generate_leased :
    Texts
    → Draws
    → String
    → ℕ
    → Option RawCount
    → Option String
    → RolloutBackend
    → Result RolloutError (Unit {0})
    → Result RolloutError GenerationOutput
generate_leased t d prompt version given request_id b (err e) = err e
generate_leased t d prompt version given request_id b (ok _) =
    generate_weighted t d prompt version given request_id b b.active_weight

-- The prompt, the target version, `request_metadata["prompt_tokens"]`, the leases and the request's id.
-- Nothing changes.
unfoldable pub generate :
    Texts
    → Draws
    → String
    → ℕ
    → Option RawCount
    → List GpuLease
    → Option String
    → RolloutBackend
    → Result RolloutError GenerationOutput
generate t d prompt version given ls request_id b =
    generate_leased t d prompt version given request_id b (check_leases b.config ls)

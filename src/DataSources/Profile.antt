-- ===== src/DataSources/Profile.antt =====
-- `_apply_mock_data_profile` of nano_rl/runtime/data_sources.py and what it calls. A seed is the text
-- whose bytes the source hashes.
use Prim.Native.String.{◌++◌ as str_append}
use nano_rl.Prelude.{
  ℕ, zero, suc, ◌-◌, ◌*◌, ◌/◌, min, max, String, List, [], ◌++◌, map, take, length, ltb, leb, ◌&&◌,
  if◌then◌else◌,
}
use nano_rl.Prelude.Equality.{◌==◌, string_eq}
use nano_rl.WeightStore.Values.{flag, number, text, mapping, end, entry}
use nano_rl.DataSources.{PromptRecord, MockDataProfile, Texts}
use nano_rl.DataSources.Reading.{set_entry}

-- Which of the four ranges of the chat mixture a draw of `random()` is in.
pub data Share : Type 0 where
  below_55 below_85 below_97 above : Share

-- The random generator that a seed gives; `lognormal` is the rounded draw about a median.
pub record Draws : Type 0 where
  pub share : String → Share
  pub randint : String → ℕ → ℕ → ℕ
  pub lognormal : String → ℕ → ℕ

abbrev pub estimate_prompt_tokens : Texts → String → ℕ
estimate_prompt_tokens t prompt = if t.is_blank prompt then 1 else max 1 (t.words prompt)

abbrev pub sample_chat_mixture_tokens : Draws → MockDataProfile → String → ℕ
sample_chat_mixture_tokens d p seed = elim (d.share seed) [
  | below_55 ↦
      let low = p.min_prompt_tokens in
      d.randint seed low (max low (min p.max_prompt_tokens p.mean_prompt_tokens))
  | below_85 ↦
      let low = max p.min_prompt_tokens (p.mean_prompt_tokens / 2) in
      d.randint seed low (max low (min p.max_prompt_tokens (p.mean_prompt_tokens * 2)))
  | below_97 ↦
      let low = max p.min_prompt_tokens p.mean_prompt_tokens in
      d.randint seed low (max low (min p.max_prompt_tokens (p.mean_prompt_tokens * 4)))
  | above ↦ d.randint seed (max p.min_prompt_tokens (p.max_prompt_tokens / 2)) p.max_prompt_tokens
]

-- The draw before it is clamped.
abbrev raw_token_count : Draws → MockDataProfile → String → ℕ → ℕ
raw_token_count d p seed fallback =
    if p.prompt_length_distribution == "fixed"
    then if p.pad_prompts then p.mean_prompt_tokens else fallback
    else if p.prompt_length_distribution == "uniform"
    then d.randint seed p.min_prompt_tokens p.max_prompt_tokens
    else if p.prompt_length_distribution == "lognormal"
    then d.lognormal seed (max p.min_prompt_tokens p.mean_prompt_tokens)
    else if p.prompt_length_distribution == "chat_mixture"
    then sample_chat_mixture_tokens d p seed
    else fallback

abbrev clamp_int : ℕ → ℕ → ℕ → ℕ
clamp_int value low high = max low (min high value)

unfoldable pub sample_prompt_token_count : Draws → MockDataProfile → String → ℕ → ℕ
sample_prompt_token_count d p seed fallback =
    clamp_int (raw_token_count d p seed fallback) p.min_prompt_tokens p.max_prompt_tokens

abbrev pub ctx : String → String
ctx piece = str_append "ctx_" piece

-- The loop of `_pad_prompt`, for so many words; each round hashes the digest of the one before. As many
-- rounds as words suffice when a digest has a piece.
unfoldable pub pad_words : Texts → ℕ → String → ℕ → List String
pad_words t zero block left = []
pad_words t (suc rounds) block zero = []
pad_words t (suc rounds) block (suc left) =
    let digest = t.hexdigest block in
    let words = take (suc left) (map ctx (t.pieces digest)) in
    words ++ pad_words t rounds digest (suc left - length words)

unfoldable pub pad_prompt : Texts → String → ℕ → String → String
unfolding pad_words
pad_prompt t prompt target seed =
    let current = estimate_prompt_tokens t prompt in
    let suffix = t.join (pad_words t (target - current) seed (target - current)) in
    if leb target current
    then prompt
    else if prompt == ""
    then suffix
    else str_append prompt (str_append " " suffix)

-- The seeds, as the f-strings build them.
abbrev pub count_seed : String → PromptRecord → String
count_seed source_type r =
    str_append source_type (str_append ":" (str_append r.prompt_id (str_append ":" r.prompt)))

abbrev pub pad_seed : PromptRecord → String
pad_seed r = str_append r.prompt_id (str_append ":" r.prompt)

abbrev pub target_of : Texts → Draws → String → MockDataProfile → PromptRecord → ℕ
target_of t d source_type p r =
    sample_prompt_token_count d p (count_seed source_type r) (estimate_prompt_tokens t r.prompt)

abbrev pub padded : Texts → MockDataProfile → PromptRecord → ℕ → String
padded t p r target =
    if p.pad_prompts && ltb (estimate_prompt_tokens t r.prompt) target
    then pad_prompt t r.prompt target (pad_seed r)
    else r.prompt

-- The time of loading is a float, and not in the metadata here.
unfoldable pub apply_mock_data_profile :
    Texts → Draws → String → MockDataProfile → PromptRecord → PromptRecord
apply_mock_data_profile t d source_type p r =
    let target = target_of t d source_type p r in
    let prompt = padded t p r target in
    let tokens = estimate_prompt_tokens t prompt in
    if p.enabled
    then record {
      prompt_id = r.prompt_id;
      prompt = prompt;
      metadata =
          set_entry "mock_data"
            (mapping (
              entry "source_type" (text source_type) (
                entry "prompt_length_distribution" (text p.prompt_length_distribution) (
                  entry "target_prompt_tokens" (number target) (
                    entry "prompt_tokens" (number tokens)
                      (entry "sleep_enabled" (flag p.sleep_enabled) end))))))
            (set_entry "prompt_tokens" (number tokens) r.metadata);
    }
    else r

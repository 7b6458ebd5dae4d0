-- ===== src/DataSources.antt =====
-- The records and profiles of nano_rl/runtime/data_sources.py. What is a float is left out: the timings
-- and the sleeps.
pub mod Reading
pub mod Profile
pub mod Sources
pub mod Padding
pub mod Building
pub mod Choosing
mod Tests
use nano_rl.Prelude.{ℕ, String, Bool, true, false, not, List, ltb, ◌||◌, if◌then◌else◌}
use nano_rl.Prelude.Equality.{◌==◌, string_eq}
use nano_rl.Prelude.Exec.{Result, ok, err}
use nano_rl.WeightStore.Values.{Entries}

-- Where a row stands: its index in the configuration, or its line or row in a file.
pub data Place : Type 0 where
  inline_entry jsonl_line csv_row : ℕ → Place

-- The `ValueError`s, `TypeError`s and `FileNotFoundError`s.
pub data SourceError : Type 0 where
  entry_type missing_column prompt_type metadata_type : Place → SourceError
  invalid_json not_an_object : ℕ → SourceError
  no_header header_without_column empty_column no_file : SourceError
  repeat_below_one negative_limit : SourceError
  unknown_distribution minimum_below_one maximum_below_minimum mean_out_of_range : SourceError
  negative_timing : SourceError

pub record PromptRecord : Type 0 where
  pub prompt_id : String
  pub prompt : String
  pub metadata : Entries

-- `negative_timings` says that one of the float fields is below zero.
pub record MockDataProfile : Type 0 where
  pub enabled : Bool
  pub sleep_enabled : Bool
  pub prompt_length_distribution : String
  pub min_prompt_tokens : ℕ
  pub mean_prompt_tokens : ℕ
  pub max_prompt_tokens : ℕ
  pub pad_prompts : Bool
  pub negative_timings : Bool

-- `MockDataProfile()`
abbrev pub default_profile : MockDataProfile
default_profile = record {
  enabled = false;
  sleep_enabled = false;
  prompt_length_distribution = "fixed";
  min_prompt_tokens = 1;
  mean_prompt_tokens = 64;
  max_prompt_tokens = 512;
  pad_prompts = false;
  negative_timings = false;
}

abbrev known_distribution : String → Bool
known_distribution s = s == "fixed" || (s == "uniform" || (s == "lognormal" || s == "chat_mixture"))

-- `validate` of the profile
unfoldable pub validate_profile : MockDataProfile → Result SourceError (Unit {0})
validate_profile p =
    if not (known_distribution p.prompt_length_distribution)
    then err unknown_distribution
    else if ltb p.min_prompt_tokens 1
    then err minimum_below_one
    else if ltb p.max_prompt_tokens p.min_prompt_tokens
    then err maximum_below_minimum
    else if ltb p.mean_prompt_tokens 1 || ltb p.max_prompt_tokens p.mean_prompt_tokens
    then err mean_out_of_range
    else if p.negative_timings
    then err negative_timing
    else ok tt

-- What is not this code's: the text of a number and of a value, whether `str.strip` leaves nothing,
-- how many words `str.split` finds, `" ".join`, the digest in hexadecimal digits, its pieces of eight,
-- and `str.format` with an index.
pub record Texts : Type 0 where
  pub decimal : ℕ → String
  pub str : nano_rl.WeightStore.Values.Value → String
  pub is_blank : String → Bool
  pub words : String → ℕ
  pub join : List String → String
  pub hexdigest : String → String
  pub pieces : String → List String
  pub format : String → ℕ → String

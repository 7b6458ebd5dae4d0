-- ===== src/DataSources/Tests.antt =====
-- Witness of the mock profiles of nano_rl/runtime/data_sources.py: a prompt of two words that is padded.
-- A character counts as a word here.
use Prim.Native.String.{◌++◌ as str_append, len}
use package.text.Mathlib.TextPositions.{len-append}
use nano_rl.Prelude.{
  ℕ, zero, suc, ◌+◌, ◌≤◌, ◌≡◌, refl, ap, String, true, false, List, [], ◌∷◌, length, All, arith,
}
use nano_rl.Prelude.Equality.{◌==◌, string_eq}
use nano_rl.Prelude.Exec.{ok}
use nano_rl.WeightStore.Values.{end}
use nano_rl.DataSources.{PromptRecord, MockDataProfile, Texts, validate_profile}
use nano_rl.DataSources.Profile.{Draws, below_55, apply_mock_data_profile}
use nano_rl.DataSources.Padding.{Profiled, apply-Profiled}

unary : ℕ → String
unary zero = ""
unary (suc n) = str_append "|" (unary n)

unary-len : (n : ℕ) → len (unary n) ≡ n
unfolding unary
unary-len zero = refl
unary-len (suc n) = omega (arith, len-append "|" (unary n), unary-len n)

join : List String → String
join [] = ""
join (w ∷ ws) = unary (length ws)

abbrev texts : Texts
texts = record {
  decimal = unary;
  str = λ v. "value";
  is_blank = λ s. s == "";
  words = len;
  join = join;
  hexdigest = λ s. s;
  pieces = λ s. "0" ∷ [];
  format = λ template n. template;
}

abbrev draws : Draws
draws = record {
  share = λ s. below_55;
  randint = λ s low high. high;
  lognormal = λ s median. median;
}

-- Prompts of 2 to 8 words, padded to 5.
abbrev profile : MockDataProfile
profile = record {
  enabled = true;
  sleep_enabled = false;
  prompt_length_distribution = "fixed";
  min_prompt_tokens = 2;
  mean_prompt_tokens = 5;
  max_prompt_tokens = 8;
  pad_prompts = true;
  negative_timings = false;
}

abbrev prompt : PromptRecord
prompt = record { prompt_id = "mock_inline:0"; prompt = "ab"; metadata = end }

digits : (block : String) → 1 ≤ length (texts.pieces (texts.hexdigest block))
digits block = omega arith

-- Any text counts as a word.
abbrev Any : String → Type 0
Any s = Unit

joined :
    (s w : String) (ws : List String)
    → All Any (w ∷ ws)
    → texts.words (str_append s (str_append " " (texts.join (w ∷ ws))))
      ≡ texts.words s + length (w ∷ ws)
unfolding join
joined s w ws h = omega (
  arith,
  len-append s (str_append " " (unary (length ws))),
  len-append " " (unary (length ws)),
  unary-len (length ws),
)

blank_words : (s : String) → texts.is_blank s ≡ true → texts.words s ≡ 0
blank_words s h = let nothing : s ≡ "" = (string_eq.test_iff s "").0 h in ap len nothing

profile_is_valid : validate_profile profile ≡ ok tt
unfolding validate_profile
profile_is_valid = refl

apply-Profiled_example :
    Profiled texts digits Any
      (λ block. (tt, tt))
      joined
      blank_words
      refl
      draws
      "mock_inline"
      profile
      prompt
      (apply_mock_data_profile texts draws "mock_inline" profile prompt)
apply-Profiled_example =
    apply-Profiled texts digits Any (λ block. (tt, tt)) joined blank_words refl draws "mock_inline"
      profile prompt profile_is_valid refl (omega arith)

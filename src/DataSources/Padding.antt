-- ===== src/DataSources/Padding.antt =====
-- How long the prompts are that a mock profile of nano_rl/runtime/data_sources.py gives.
use Prim.Native.String.{◌++◌ as str_append}
use nano_rl.Prelude.{
  ℕ, zero, suc, ◌+◌, ◌-◌, ◌≤◌, ◌≡◌, refl, ap, ◌∙◌, max, String, true, false, List, [], ◌∷◌, map,
  take, length, length-append, length-take, length-map, All, All-append, some, Bool-cases, inl, inr,
  ltb, leb, ◌&&◌, if_rule, arith,
}
use nano_rl.Prelude.Equality.{◌==◌, string_eq}
use nano_rl.Prelude.Exec.{ok}
use nano_rl.WeightStore.Values.{Value, Entries, number, end, entry, field}
use nano_rl.DataSources.Reading.{set_entry}
use nano_rl.DataSources.{PromptRecord, MockDataProfile, Texts, validate_profile}
use nano_rl.DataSources.Profile.{
  Draws, estimate_prompt_tokens, sample_prompt_token_count, pad_words, pad_prompt, pad_seed,
  target_of, padded, ctx, apply_mock_data_profile,
}

-- A profile that is accepted has a range of counts.
validate_profile-range :
    (p : MockDataProfile)
    → validate_profile p ≡ ok tt
    → (1 ≤ p.min_prompt_tokens) × (p.min_prompt_tokens ≤ p.max_prompt_tokens)
unfolding validate_profile
validate_profile-range p h = (ground (arith, h), ground (arith, h))

pub target-range :
    (t : Texts) (d : Draws) (source_type : String) (p : MockDataProfile) (r : PromptRecord)
    → validate_profile p ≡ ok tt
    → (1 ≤ target_of t d source_type p r)
      × (p.min_prompt_tokens ≤ target_of t d source_type p r)
      × (target_of t d source_type p r ≤ p.max_prompt_tokens)
unfolding sample_prompt_token_count
target-range t d source_type p r h =
    let (one, fits) = validate_profile-range p h in
    (omega (arith, one, fits), omega (arith, one, fits), omega (arith, one, fits))

field-set_entry :
    (key : String) (v : Value) (es : Entries) → field key (set_entry key v es) ≡ some v
unfolding field set_entry
field-set_entry key v end = ground (arith, string_eq.test_iff key key)
field-set_entry key v (entry k w es) = ground (arith, field-set_entry key v es)

field-set_entry_other :
    (key other : String) (v : Value) (es : Entries)
    → (other == key) ≡ false
    → field key (set_entry other v es) ≡ field key es
unfolding field set_entry
field-set_entry_other key other v end h = ground (arith, h)
field-set_entry_other key other v (entry k w es) h =
    ground (arith, h, field-set_entry_other key other v es h, string_eq.test_iff k other)

take-All : (P : String → Type 0) (n : ℕ) (ws : List String) → All P ws → All P (take n ws)
take-All P zero ws h = tt
take-All P (suc n) [] h = tt
take-All P (suc n) (w ∷ ws) (h, hs) = (h, take-All P n ws hs)

module _ (t : Texts) (digits : (block : String) → 1 ≤ length (t.pieces (t.hexdigest block))) where
  -- With as many rounds as words the loop gives all of them.
  pub pad_words-enough :
      (rounds : ℕ) (block : String) (left : ℕ)
      → left ≤ rounds
      → length (pad_words t rounds block left) ≡ left
  unfolding pad_words
  pad_words-enough zero block left h = omega arith
  pad_words-enough (suc rounds) block zero h = refl
  pad_words-enough (suc rounds) block (suc left) h =
      let digest = t.hexdigest block in
      let pieces = map ctx (t.pieces digest) in
      let words = take (suc left) pieces in
      let taken = length-take (suc left) pieces in
      let some_piece : 1 ≤ length pieces =
        omega (arith, length-map ctx (t.pieces digest), digits block) in
      let rest =
        pad_words-enough rounds digest (suc left - length words)
          (omega (arith, taken, some_piece, h)) in
      omega (
        arith,
        length-append words (pad_words t rounds digest (suc left - length words)),
        taken,
        rest,
      )

  module _ (IsWord : String → Type 0)
      (ctx_words : (block : String) → All IsWord (map ctx (t.pieces (t.hexdigest block))))
      (joined : (s w : String) (ws : List String)
        → All IsWord (w ∷ ws)
        → t.words (str_append s (str_append " " (t.join (w ∷ ws)))) ≡ t.words s + length (w ∷ ws))
      (blank_words : (s : String) → t.is_blank s ≡ true → t.words s ≡ 0)
      (blank_empty : t.is_blank "" ≡ true) where
    pad_words-All :
        (rounds : ℕ) (block : String) (left : ℕ) → All IsWord (pad_words t rounds block left)
    unfolding pad_words
    pad_words-All zero block left = tt
    pad_words-All (suc rounds) block zero = tt
    pad_words-All (suc rounds) block (suc left) =
        let digest = t.hexdigest block in
        let words = take (suc left) (map ctx (t.pieces digest)) in
        All-append IsWord words (pad_words t rounds digest (suc left - length words))
          (take-All IsWord (suc left) _ (ctx_words block)) (pad_words-All rounds digest _)

    estimate_words : (s : String) → 1 ≤ t.words s → estimate_prompt_tokens t s ≡ t.words s
    estimate_words s h = elim (Bool-cases (t.is_blank s)) [
      | inl blank ↦ absurd (omega (arith, blank_words s blank, h))
      | inr other ↦ ground (arith, other, h)
    ]

    appended :
        (s : String) (ws : List String)
        → 1 ≤ length ws
        → All IsWord ws
        → t.words (str_append s (str_append " " (t.join ws))) ≡ t.words s + length ws
    appended s [] some_word words = absurd (omega arith)
    appended s (w ∷ ws) some_word words = joined s w ws words

    pad_prompt-tokens :
        (s : String) (target : ℕ) (seed : String)
        → 1 ≤ t.words s
        → estimate_prompt_tokens t (pad_prompt t s target seed)
          ≡ max (estimate_prompt_tokens t s) target
    unfolding pad_prompt
    pad_prompt-tokens s target seed h =
        let current = estimate_prompt_tokens t s in
        let needed = target - current in
        let ws = pad_words t needed seed needed in
        let all_words = pad_words-enough needed seed needed (omega arith) in
        let now = estimate_words s h in
        let P = λ (u : String). estimate_prompt_tokens t u ≡ max current target in
        if_rule P (leb target current) _ _ (λ long. ground (arith, long))
          (λ short.
            if_rule P (s == "") _ _
              (λ none_there.
                let nothing : s ≡ "" = (string_eq.test_iff s "").0 none_there in
                absurd (omega (arith, h, ap t.words nothing, blank_words "" blank_empty)))
              (λ there.
                let below : current ≤ target = ground (arith, short) in
                let some_word : 1 ≤ length ws = ground (arith, all_words, short) in
                let longer = appended s ws some_word (pad_words-All needed seed needed) in
                let now_longer =
                  estimate_words (str_append s (str_append " " (t.join ws)))
                    (omega (arith, longer, h)) in
                omega (arith, now_longer, longer, all_words, now, below)))

    -- The prompt with its own count, or padded to the target.
    abbrev pub Profiled : Draws → String → MockDataProfile → PromptRecord → PromptRecord → Type 0
    Profiled d source_type p r r' =
        (r'.prompt_id ≡ r.prompt_id)
        × (p.min_prompt_tokens ≤ target_of t d source_type p r)
        × (target_of t d source_type p r ≤ p.max_prompt_tokens)
        × (p.pad_prompts ≡ false → r'.prompt ≡ r.prompt)
        × (p.pad_prompts ≡ true
            → estimate_prompt_tokens t r'.prompt
              ≡ max (estimate_prompt_tokens t r.prompt) (target_of t d source_type p r))
        × (field "prompt_tokens" r'.metadata ≡ some (number (estimate_prompt_tokens t r'.prompt)))

    padded-tokens :
        (p : MockDataProfile) (r : PromptRecord) (target : ℕ)
        → 1 ≤ t.words r.prompt
        → p.pad_prompts ≡ true
        → estimate_prompt_tokens t (padded t p r target)
          ≡ max (estimate_prompt_tokens t r.prompt) target
    padded-tokens p r target h pads =
        if_rule
          (λ (u : String).
            estimate_prompt_tokens t u ≡ max (estimate_prompt_tokens t r.prompt) target)
          (p.pad_prompts && ltb (estimate_prompt_tokens t r.prompt) target) _ _
          (λ _. pad_prompt-tokens r.prompt target (pad_seed r) h)
          (λ enough. ground (arith, enough, pads))

    -- When a digest has at least one piece, joined words are words again, and a blank text has none,
    -- the record that an enabled and valid profile makes of a prompt with a word keeps its id; its
    -- target is within the profile's range; the prompt stays as it is, or with padding has as many
    -- words as the target or as it had, whichever is more; and the metadata tells the count of its
    -- words.
    pub apply-Profiled :
        (d : Draws) (source_type : String) (p : MockDataProfile) (r : PromptRecord)
        → validate_profile p ≡ ok tt
        → p.enabled ≡ true
        → 1 ≤ t.words r.prompt
        → Profiled d source_type p r (apply_mock_data_profile t d source_type p r)
    unfolding apply_mock_data_profile
    apply-Profiled d source_type p r valid enabled h =
        if_rule (Profiled d source_type p r) p.enabled _ _
          (λ _.
            let (one, low, high) = target-range t d source_type p r valid in
            (
              refl,
              low,
              high,
              λ pads. ground (arith, pads),
              λ pads. padded-tokens p r (target_of t d source_type p r) h pads,
              field-set_entry_other "prompt_tokens" "mock_data" _ _ refl
                  ∙ field-set_entry "prompt_tokens" _ _,
            ))
          (λ disabled. absurd (ground (arith, disabled, enabled)))

-- ===== src/DataSources/Choosing.antt =====
-- `MockDataProfile.from_mapping` and `build_prompt_source` of nano_rl/runtime/data_sources.py.
use nano_rl.Prelude.{ℕ, String, false, Option, none, some, List, [], ◌∷◌, if◌then◌else◌}
use nano_rl.Prelude.Equality.{◌==◌, string_eq}
use nano_rl.Prelude.Exec.{Result, ok, err}
use nano_rl.WeightStore.Values.{
  Value, Items, Entries, null, text, flag, number, array, tuple, mapping, nil, cons, end, entry,
  field,
}
use nano_rl.WeightStore.Building.{truthy, or_value}
use nano_rl.DataSources.{
  SourceError, PromptRecord, MockDataProfile, Texts, default_profile, validate_profile,
}
use nano_rl.DataSources.Reading.{Line, Row, str_of}
use nano_rl.DataSources.Profile.{Draws}
use nano_rl.DataSources.Sources.{inline_source, generated_source, jsonl_source, csv_source}
use nano_rl.DataSources.Building.{
  BuildError, Numbers, of_source, no_source_type, unsupported_source, prompts_missing,
  prompts_not_iterable, count_missing, path_missing, coerce_int, coerce_bool, coerce_shuffle,
  source_options, coerce_data_mapping,
}

abbrev on_ok :
    {A B : Type 0} → Result BuildError A → (A → Result BuildError B) → Result BuildError B
on_ok (err e) next = err e
on_ok (ok a) next = next a

abbrev of_sources : {A : Type 0} → Result SourceError A → Result BuildError A
of_sources (err e) = err (of_source e)
of_sources (ok a) = ok a

-- `raw.get(key, default)`
abbrev get_or : String → Entries → Value → Value
get_or key es default = elim (field key es) [ none ↦ default | some v ↦ v ]

abbrev validated : MockDataProfile → Result BuildError MockDataProfile
validated p = on_ok (of_sources (validate_profile p)) (λ _. ok p)

-- `from_mapping` of a dict that is not empty. The floats are read last here.
abbrev profile_of : Texts → Numbers → Entries → Result BuildError MockDataProfile
profile_of t o raw =
    on_ok (coerce_bool (get_or "enabled" raw (flag false)) "mock_profile.enabled") (λ enabled.
      on_ok (coerce_bool (get_or "sleep_enabled" raw (flag false)) "mock_profile.sleep_enabled")
        (λ sleeps.
          on_ok
            (coerce_int o (get_or "min_prompt_tokens" raw (number 1))
              "mock_profile.min_prompt_tokens")
            (λ minimum.
              on_ok
                (coerce_int o (get_or "mean_prompt_tokens" raw (number 64))
                  "mock_profile.mean_prompt_tokens")
                (λ mean.
                  on_ok
                    (coerce_int o (get_or "max_prompt_tokens" raw (number 512))
                      "mock_profile.max_prompt_tokens")
                    (λ maximum.
                      on_ok
                        (coerce_bool (get_or "pad_prompts" raw (flag false))
                          "mock_profile.pad_prompts")
                        (λ pads. on_ok (o.timings raw) (λ negative. validated (record {
                          enabled = enabled;
                          sleep_enabled = sleeps;
                          prompt_length_distribution =
                              str_of t (get_or "prompt_length_distribution" raw (text "fixed"));
                          min_prompt_tokens = minimum;
                          mean_prompt_tokens = mean;
                          max_prompt_tokens = maximum;
                          pad_prompts = pads;
                          negative_timings = negative;
                        }))))))))

pub from_mapping : Texts → Numbers → Option Value → Result BuildError MockDataProfile
from_mapping t o (some (mapping (entry k v es))) = profile_of t o (entry k v es)
from_mapping t o _ = ok default_profile

abbrev items_of : Items → List Value
items_of nil = []
items_of (cons v vs) = v ∷ items_of vs

-- Iterating over a dict gives its keys.
abbrev keys_of : Entries → List Value
keys_of end = []
keys_of (entry k v es) = text k ∷ keys_of es

abbrev prompts_of : Option Value → Result BuildError (List Value)
prompts_of none = err prompts_missing
prompts_of (some null) = err prompts_missing
prompts_of (some (array vs)) = ok (items_of vs)
prompts_of (some (tuple vs)) = ok (items_of vs)
prompts_of (some (mapping es)) = ok (keys_of es)
prompts_of (some _) = err prompts_not_iterable

-- The files that there are, by path, and by encoding and path; and the shuffle of a seeded generator.
pub record World : Type 0 where
  pub jsonl : Value → Option (List Line)
  pub csv : String → Value → Option (Option (List String) × List Row)
  pub shuffled : ℕ → List ℕ → List ℕ

abbrev path_of : Entries → Result BuildError Value
path_of opts = elim (or_value (field "data_path" opts) (field "path" opts)) [
  | none ↦ err path_missing
  | some v ↦ if truthy v then ok v else err path_missing
]

module _ (t : Texts) (o : Numbers) (d : Draws) (w : World) where
  abbrev column_of : Entries → String
  column_of opts = str_of t (get_or "prompt_column" opts (text "prompt"))

  abbrev build_inline : MockDataProfile → Entries → Result BuildError (List PromptRecord)
  build_inline p opts = on_ok (prompts_of (field "prompts" opts)) (λ prompts.
      on_ok (coerce_int o (get_or "repeat" opts (number 1)) "mock_inline.repeat")
        (λ repeat. of_sources (inline_source t d p prompts (column_of opts) repeat)))

  abbrev count_of : Option Value → Result BuildError ℕ
  count_of none = err count_missing
  count_of (some v) = coerce_int o v "mock_generated.count"

  abbrev build_generated : MockDataProfile → Entries → ℕ → Result BuildError (List PromptRecord)
  build_generated p opts seed = on_ok (count_of (field "count" opts)) (λ count.
      on_ok (coerce_int o (get_or "start_index" opts (number 0)) "mock_generated.start_index")
        (λ start_index. on_ok (coerce_shuffle (get_or "shuffle" opts (flag false))) (λ shuffle.
          on_ok (coerce_int o (get_or "seed" opts (number seed)) "mock_generated.seed") (λ own_seed.
            ok (
              generated_source t d p w.shuffled count
                (str_of t (get_or "template" opts (text "mock prompt {index}"))) start_index shuffle
                own_seed)))))

  abbrev build_jsonl : MockDataProfile → Entries → Result BuildError (List PromptRecord)
  build_jsonl p opts =
      on_ok (path_of opts) (λ path. of_sources (jsonl_source t d p (w.jsonl path) (column_of opts)))

  abbrev build_csv : MockDataProfile → Entries → Result BuildError (List PromptRecord)
  build_csv p opts = on_ok (path_of opts) (λ path. of_sources (
      csv_source t d p (w.csv (str_of t (get_or "encoding" opts (text "utf-8"))) path)
        (column_of opts)))

  abbrev build_from : String → MockDataProfile → Entries → ℕ → Result BuildError (List PromptRecord)
  build_from source_type p opts seed =
      if source_type == "mock_inline"
      then build_inline p opts
      else if source_type == "mock_generated"
      then build_generated p opts seed
      else if source_type == "mock_jsonl"
      then build_jsonl p opts
      else if source_type == "local_csv"
      then build_csv p opts
      else err (unsupported_source source_type)

  -- `_coerce_source_type`
  abbrev source_type_of : Option Value → Result BuildError String
  source_type_of none = err (no_source_type "data.source_type")
  source_type_of (some null) = err (no_source_type "data.source_type")
  source_type_of (some v) = ok (str_of t v)

  -- The records of the source that a dict describes, with the seed of `_coerce_seed`.
  pub build_prompt_source : Entries → ℕ → Result BuildError (List PromptRecord)
  build_prompt_source config seed =
      let values = coerce_data_mapping config in
      on_ok (source_type_of (field "source_type" values)) (λ source_type.
        on_ok (source_options values source_type) (λ opts.
          on_ok (from_mapping t o (field "mock_profile" values))
            (λ p. build_from source_type p opts seed)))

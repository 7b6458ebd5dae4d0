-- ===== src/DataSources/Sources.antt =====
-- The four prompt sources of nano_rl/runtime/data_sources.py: what each `__init__` keeps in `_records`,
-- and `iter_prompts`.
use Prim.Native.String.{◌++◌ as str_append}
use nano_rl.Prelude.{
  ℕ, ◌+◌, String, Bool, Option, none, some, List, [], ◌∷◌, ◌++◌, map, take, ltb, if◌then◌else◌,
}
use nano_rl.Prelude.Equality.{◌==◌, nat_eq, string_eq}
use nano_rl.Prelude.Exec.{Result, ok, err}
use nano_rl.GpuPlan.{range_from}
use nano_rl.WeightStore.Values.{Value, Entries, number, end, entry}
use nano_rl.DataSources.{
  SourceError, PromptRecord, MockDataProfile, Texts, repeat_below_one, negative_limit, empty_column,
  no_file,
}
use nano_rl.DataSources.Reading.{
  Line, Row, set_entry, records_from_items, read_jsonl_records, read_csv_records,
}
use nano_rl.DataSources.Profile.{Draws, apply_mock_data_profile}

-- `{**metadata, **es}`
pub update_entries : Entries → Entries → Entries
unfolding set_entry
update_entries metadata end = metadata
update_entries metadata (entry k v es) = update_entries (set_entry k v metadata) es

module _ (t : Texts) (d : Draws) (p : MockDataProfile) where
  -- The record of one prompt in one repetition.
  abbrev repeated : ℕ → ℕ → ℕ → PromptRecord → PromptRecord
  repeated repeat repeat_index index r =
      if ltb 1 repeat
      then record {
        prompt_id = str_append r.prompt_id (str_append ":repeat-" (t.decimal repeat_index));
        prompt = r.prompt;
        metadata =
            set_entry "prompt_index" (number index)
              (update_entries (entry "repeat_index" (number repeat_index) end) r.metadata);
      }
      else r

  -- The inner loop, from this index on.
  pub one_repeat : ℕ → ℕ → ℕ → List PromptRecord → List PromptRecord
  unfolding update_entries set_entry
  one_repeat repeat repeat_index index [] = []
  one_repeat repeat repeat_index index (r ∷ rs) =
      apply_mock_data_profile t d "mock_inline" p (repeated repeat repeat_index index r)
      ∷ one_repeat repeat repeat_index (index + 1) rs

  -- The outer loop, over what is left of `range(repeat)`.
  pub all_repeats : ℕ → List ℕ → List PromptRecord → List PromptRecord
  unfolding one_repeat
  all_repeats repeat [] rs = []
  all_repeats repeat (i ∷ is) rs = one_repeat repeat i 0 rs ++ all_repeats repeat is rs

  abbrev repeat_ok :
      ℕ → Result SourceError (List PromptRecord) → Result SourceError (List PromptRecord)
  repeat_ok repeat (err e) = err e
  repeat_ok repeat (ok rs) = ok (all_repeats repeat (range_from 0 repeat) rs)

  -- `MockInlinePromptSource`
  pub inline_source : List Value → String → ℕ → Result SourceError (List PromptRecord)
  unfolding all_repeats
  inline_source prompts column repeat =
      if ltb repeat 1
      then err repeat_below_one
      else repeat_ok repeat (records_from_items t column 0 prompts)

  -- The records of the indices, numbered from `ordinal` on.
  pub generated_records : String → ℕ → List ℕ → List PromptRecord
  generated_records template ordinal [] = []
  generated_records template ordinal (index ∷ indices) =
      apply_mock_data_profile t d "mock_generated" p (record {
        prompt_id = str_append "mock_generated:" (t.decimal index);
        prompt = t.format template index;
        metadata = entry "index" (number index) (entry "ordinal" (number ordinal) end);
      })
      ∷ generated_records template (ordinal + 1) indices

  -- `MockGeneratedPromptSource`; the shuffle is that of `random.Random` with the seed.
  pub generated_source : (ℕ → List ℕ → List ℕ) → ℕ → String → ℕ → Bool → ℕ → List PromptRecord
  unfolding generated_records
  generated_source shuffled count template start_index shuffle seed =
      let indices = range_from start_index count in
      generated_records template 0 (if shuffle then shuffled seed indices else indices)

  abbrev profiled :
      String → Result SourceError (List PromptRecord) → Result SourceError (List PromptRecord)
  profiled source_type (err e) = err e
  profiled source_type (ok rs) = ok (map (apply_mock_data_profile t d source_type p) rs)

  abbrev from_file :
      {F : Type 0}
      → String
      → Option F
      → (F → Result SourceError (List PromptRecord))
      → Result SourceError (List PromptRecord)
  from_file column none read = err no_file
  from_file column (some file) read = read file

  -- `MockJsonlPromptSource`, on the lines of the file if there is one
  pub jsonl_source : Option (List Line) → String → Result SourceError (List PromptRecord)
  jsonl_source file column =
      if column == ""
      then err empty_column
      else from_file column file
          (λ lines. profiled "mock_jsonl" (read_jsonl_records t column 1 lines))

  -- `LocalCsvPromptSource`, on the header and the rows of the file if there is one
  pub csv_source :
      Option (Option (List String) × List Row) → String → Result SourceError (List PromptRecord)
  csv_source file column =
      if column == ""
      then err empty_column
      else from_file column file (λ f. profiled "local_csv" (read_csv_records t column f.0 f.1))

-- The argument `limit`
pub data Limit : Type 0 where
  no_limit negative : Limit
  at_most : ℕ → Limit

-- `_limit_records`, all that it yields; the sleeps are left out.
unfoldable pub limit_records : List PromptRecord → Limit → Result SourceError (List PromptRecord)
limit_records records no_limit = ok records
limit_records records negative = err negative_limit
limit_records records (at_most n) = ok (take n records)

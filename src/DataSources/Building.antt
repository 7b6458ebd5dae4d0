-- ===== src/DataSources/Building.antt =====
-- `build_prompt_source` of nano_rl/runtime/data_sources.py, on a dict with the data's options, and the
-- coercions of options. What `int` reads of a text or an instant, and the float options, are
-- parameters.
use nano_rl.Prelude.{
  ℕ, zero, suc, String, Bool, true, false, Option, none, some, [], ◌∷◌, if◌then◌else◌,
}
use nano_rl.Prelude.Equality.{string_eq, contains}
use nano_rl.Prelude.Exec.{Result, ok, err}
use nano_rl.WeightStore.Values.{
  Value, Entries, null, flag, number, text, mapping, end, entry, field,
}
use nano_rl.DataSources.{SourceError}
use nano_rl.DataSources.Reading.{set_entry}

-- The errors of the coercions and of the missing options, and those of the sources.
pub data BuildError : Type 0 where
  not_an_integer not_boolean shuffle_unknown : String → BuildError
  no_source_type unsupported_source options_not_mapping : String → BuildError
  prompts_missing prompts_not_iterable count_missing path_missing : BuildError
  of_source : SourceError → BuildError

-- `int(value)` of what is no number, and whether a float option that is given is below zero.
pub record Numbers : Type 0 where
  pub int_of : Value → Option ℕ
  pub timings : Entries → Result BuildError Bool

abbrev integer_or : String → Option ℕ → Result BuildError ℕ
integer_or name none = err (not_an_integer name)
integer_or name (some n) = ok n

-- `_coerce_int`; a Boolean is refused.
pub coerce_int : Numbers → Value → String → Result BuildError ℕ
coerce_int o (flag b) name = err (not_an_integer name)
coerce_int o (number n) name = ok n
coerce_int o v name = integer_or name (o.int_of v)

abbrev bool_text : String → String → Result BuildError Bool
bool_text name s =
    if contains s ("true" ∷ "True" ∷ "1" ∷ [])
    then ok true
    else if contains s ("false" ∷ "False" ∷ "0" ∷ [])
    then ok false
    else err (not_boolean name)

-- `_coerce_bool`; a value that cannot be hashed is refused too.
pub coerce_bool : Value → String → Result BuildError Bool
coerce_bool (flag b) name = ok b
coerce_bool null name = ok false
coerce_bool (number zero) name = ok false
coerce_bool (number (suc zero)) name = ok true
coerce_bool (text s) name = bool_text name s
coerce_bool _ name = err (not_boolean name)

abbrev shuffle_text : String → Result BuildError Bool
shuffle_text s =
    if contains s ("false" ∷ "False" ∷ "none" ∷ "None" ∷ [])
    then ok false
    else if contains s ("true" ∷ "True" ∷ "deterministic" ∷ [])
    then ok true
    else err (shuffle_unknown "mock_generated.shuffle")

-- `_coerce_shuffle`; 0 and 1 equal False and True.
pub coerce_shuffle : Value → Result BuildError Bool
coerce_shuffle (flag b) = ok b
coerce_shuffle null = ok false
coerce_shuffle (number zero) = ok false
coerce_shuffle (number (suc zero)) = ok true
coerce_shuffle (text s) = shuffle_text s
coerce_shuffle _ = err (shuffle_unknown "mock_generated.shuffle")

abbrev is_nested_key : String → Bool
is_nested_key key = contains key (
    "source_type" ∷ "mock_inline" ∷ "mock_generated" ∷ "mock_jsonl" ∷ "local_csv" ∷ "mock_profile"
    ∷ [])

-- The loop of `_source_options`.
pub add_options : Entries → Entries → Entries
unfolding set_entry
add_options end opts = opts
add_options (entry k v es) opts =
    add_options es (if is_nested_key k then opts else set_entry k v opts)

-- `_source_options`
pub source_options : Entries → String → Result BuildError Entries
unfolding add_options
source_options data_values source_type = elim (field source_type data_values) [
  | none ↦ ok (add_options data_values end)
  | some null ↦ ok (add_options data_values end)
  | some (mapping nested) ↦ ok (add_options data_values nested)
  | some _ ↦ err (options_not_mapping source_type)
]

-- `_coerce_data_mapping` of a dict
pub coerce_data_mapping : Entries → Entries
coerce_data_mapping config = elim (field "source_type" config) [
  | some v ↦ config
  | none ↦ elim (field "data" config) [ some (mapping nested) ↦ nested | _ ↦ config ]
]

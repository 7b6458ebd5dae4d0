-- ===== src/DataSources/Reading.antt =====
-- How the rows of nano_rl/runtime/data_sources.py become prompts: `_record_from_inline_item`,
-- `_read_jsonl_records` and `_read_csv_records`.
use Prim.Native.String.{◌++◌ as str_append}
use nano_rl.Prelude.{
  ℕ, ◌+◌, String, Bool, not, Option, none, some, List, [], ◌∷◌, ◌||◌, if◌then◌else◌,
}
use nano_rl.Prelude.Equality.{◌==◌, string_eq, contains}
use nano_rl.Prelude.Exec.{Result, ok, err}
use nano_rl.Prelude.Dict.{Dict, lookup}
use nano_rl.WeightStore.Values.{Value, Entries, null, text, mapping, end, entry, field}
use nano_rl.DataSources.{
  Place, SourceError, PromptRecord, Texts, inline_entry, jsonl_line, csv_row, entry_type,
  missing_column, prompt_type, metadata_type, invalid_json, not_an_object, no_header,
  header_without_column,
}

-- `metadata[key] = value`
unfoldable pub set_entry : String → Value → Entries → Entries
set_entry key v end = entry key v end
set_entry key v (entry k w es) = if k == key then entry k v es else entry k w (set_entry key v es)

abbrev is_metadata_key : String → String → Bool
is_metadata_key column key =
    not (key == column || (key == "metadata" || (key == "prompt_id" || key == "id")))

-- The loop that adds the other columns.
pub add_columns : String → Entries → Entries → Entries
unfolding set_entry
add_columns column end metadata = metadata
add_columns column (entry k v es) metadata =
    add_columns column es (if is_metadata_key column k then set_entry k v metadata else metadata)

-- `str(value)`
abbrev pub str_of : Texts → Value → String
str_of t (text s) = s
str_of t v = t.str v

abbrev id_or : Texts → Option Value → Option Value → String → String
id_or t (some v) other default = str_of t v
id_or t none (some v) default = str_of t v
id_or t none none default = default

abbrev metadata_of : Place → Option Value → Result SourceError Entries
metadata_of at none = ok end
metadata_of at (some null) = ok end
metadata_of at (some (mapping es)) = ok es
metadata_of at (some _) = err (metadata_type at)

abbrev with_metadata :
    Texts
    → String
    → String
    → Entries
    → String
    → Result SourceError Entries
    → Result SourceError PromptRecord
with_metadata t column default es prompt (err e) = err e
with_metadata t column default es prompt (ok metadata) = ok (record {
  prompt_id = id_or t (field "prompt_id" es) (field "id" es) default;
  prompt = prompt;
  metadata = add_columns column es metadata;
})

abbrev with_prompt :
    Texts → Place → String → String → Entries → Option Value → Result SourceError PromptRecord
with_prompt t at column default es none = err (missing_column at)
with_prompt t at column default es (some (text prompt)) =
    with_metadata t column default es prompt (metadata_of at (field "metadata" es))
with_prompt t at column default es (some _) = err (prompt_type at)

-- What an entry that is an object and a line of a file have in common.
pub record_of_row : Texts → Place → String → String → Entries → Result SourceError PromptRecord
unfolding add_columns
record_of_row t at column default es = with_prompt t at column default es (field column es)

pub record_from_inline_item : Texts → String → ℕ → Value → Result SourceError PromptRecord
record_from_inline_item t column index (text s) =
    ok (record {
      prompt_id = str_append "mock_inline:" (t.decimal index);
      prompt = s;
      metadata = end;
    })
record_from_inline_item t column index (mapping es) =
    record_of_row t (inline_entry index) column (str_append "mock_inline:" (t.decimal index)) es
record_from_inline_item t column index _ = err (entry_type (inline_entry index))

abbrev pub cons_ok :
    Result SourceError PromptRecord
    → Result SourceError (List PromptRecord)
    → Result SourceError (List PromptRecord)
cons_ok (err e) rs = err e
cons_ok (ok r) (err e) = err e
cons_ok (ok r) (ok rs) = ok (r ∷ rs)

-- The entries of the configuration, numbered from `index` on.
pub records_from_items : Texts → String → ℕ → List Value → Result SourceError (List PromptRecord)
unfolding record_from_inline_item
records_from_items t column index [] = ok []
records_from_items t column index (item ∷ items) =
    cons_ok (record_from_inline_item t column index item)
      (records_from_items t column (index + 1) items)

-- A line of a file, as `str.strip` and `json.loads` see it.
pub data Line : Type 0 where
  blank_line : Line
  invalid_line : Line
  value_line : Value → Line

abbrev record_of_value : Texts → String → ℕ → Value → Result SourceError PromptRecord
record_of_value t column number (mapping es) =
    record_of_row t (jsonl_line number) column (str_append "mock_jsonl:" (t.decimal number)) es
record_of_value t column number _ = err (not_an_object number)

-- The lines, from this number on.
pub read_jsonl_records : Texts → String → ℕ → List Line → Result SourceError (List PromptRecord)
unfolding record_of_row
read_jsonl_records t column number [] = ok []
read_jsonl_records t column number (blank_line ∷ lines) =
    read_jsonl_records t column (number + 1) lines
read_jsonl_records t column number (invalid_line ∷ lines) = err (invalid_json number)
read_jsonl_records t column number (value_line v ∷ lines) =
    cons_ok (record_of_value t column number v) (read_jsonl_records t column (number + 1) lines)

-- A row of `csv.DictReader`: a text, or none where the row is short. What a row has beyond its header
-- has no name, and is left out as in the source.
abbrev pub Row : Type 0
Row = Dict String (Option String)

abbrev is_csv_metadata_key : String → String → Bool
is_csv_metadata_key column key = not (key == column || (key == "prompt_id" || key == "id"))

abbrev cell : Option String → Value
cell none = null
cell (some s) = text s

pub csv_metadata : String → Row → Entries
csv_metadata column [] = end
csv_metadata column ((k, v) ∷ row) =
    let rest = csv_metadata column row in
    if is_csv_metadata_key column k then entry k (cell v) rest else rest

-- `row.get(key) or default`
abbrev cell_or : Option (Option String) → String → String
cell_or none default = default
cell_or (some none) default = default
cell_or (some (some s)) default = if s == "" then default else s

abbrev record_of_csv :
    Texts → String → ℕ → Row → Option (Option String) → Result SourceError PromptRecord
record_of_csv t column number row none = err (missing_column (csv_row number))
record_of_csv t column number row (some none) = err (missing_column (csv_row number))
record_of_csv t column number row (some (some prompt)) = ok (record {
  prompt_id =
      cell_or (lookup "prompt_id" row)
        (cell_or (lookup "id" row) (str_append "local_csv:" (t.decimal number)));
  prompt = prompt;
  metadata = csv_metadata column row;
})

pub csv_rows : Texts → String → ℕ → List Row → Result SourceError (List PromptRecord)
unfolding csv_metadata
csv_rows t column number [] = ok []
csv_rows t column number (row ∷ rows) =
    cons_ok (record_of_csv t column number row (lookup column row))
      (csv_rows t column (number + 1) rows)

-- The header, and the rows from number 1 on.
pub read_csv_records :
    Texts → String → Option (List String) → List Row → Result SourceError (List PromptRecord)
unfolding csv_rows
read_csv_records t column none rows = err no_header
read_csv_records t column (some fieldnames) rows =
    if contains column fieldnames then csv_rows t column 1 rows else err header_without_column

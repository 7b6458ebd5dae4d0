-- ===== src/WeightStore/Values.antt =====
-- The values that a payload of nano_rl/runtime/weight_store.py may hold, and `_jsonable`. The text of
-- a file is left out: a file holds the value that `json.dumps` writes and `json.loads` reads back.
use nano_rl.Prelude.{ℕ, String, ◌≡◌, refl, ap, Bool, Option, none, some, if◌then◌else◌}
use nano_rl.Prelude.Equality.{◌==◌, string_eq}

-- A Python value. A tuple is a value of its own, as JSON has none.
mutual
  pub data Value : Type 0 where
    null : Value
    flag : Bool → Value
    number : ℕ → Value
    text : String → Value
    instant : ℕ → Value
    array : Items → Value
    tuple : Items → Value
    mapping : Entries → Value

  pub data Items : Type 0 where
    nil : Items
    cons : Value → Items → Items

  pub data Entries : Type 0 where
    end : Entries
    entry : String → Value → Entries → Entries

-- `data.get(key)`
unfoldable pub field : String → Entries → Option Value
field key end = none
field key (entry k v es) = if k == key then some v else field key es

-- `_jsonable`, with `datetime.isoformat`
unfoldable mutual
  pub jsonable : (ℕ → String) → Value → Value
  jsonable iso null = null
  jsonable iso (flag b) = flag b
  jsonable iso (number n) = number n
  jsonable iso (text s) = text s
  jsonable iso (instant t) = text (iso t)
  jsonable iso (array xs) = array (jsonable_items iso xs)
  jsonable iso (tuple xs) = array (jsonable_items iso xs)
  jsonable iso (mapping es) = mapping (jsonable_entries iso es)

  pub jsonable_items : (ℕ → String) → Items → Items
  jsonable_items iso nil = nil
  jsonable_items iso (cons x xs) = cons (jsonable iso x) (jsonable_items iso xs)

  pub jsonable_entries : (ℕ → String) → Entries → Entries
  jsonable_entries iso end = end
  jsonable_entries iso (entry k v es) = entry k (jsonable iso v) (jsonable_entries iso es)

mutual
  unfolding jsonable jsonable_items jsonable_entries

  jsonable-again : (iso : ℕ → String) (v : Value) → jsonable iso (jsonable iso v) ≡ jsonable iso v
  jsonable-again iso null = refl
  jsonable-again iso (flag b) = refl
  jsonable-again iso (number n) = refl
  jsonable-again iso (text s) = refl
  jsonable-again iso (instant t) = refl
  jsonable-again iso (array xs) = ap array (items-again iso xs)
  jsonable-again iso (tuple xs) = ap array (items-again iso xs)
  jsonable-again iso (mapping es) = ap mapping (entries-again iso es)

  items-again :
      (iso : ℕ → String) (xs : Items)
      → jsonable_items iso (jsonable_items iso xs) ≡ jsonable_items iso xs
  items-again iso nil = refl
  items-again iso (cons x xs) = rw (jsonable-again iso x, items-again iso xs) refl

  entries-again :
      (iso : ℕ → String) (es : Entries)
      → jsonable_entries iso (jsonable_entries iso es) ≡ jsonable_entries iso es
  entries-again iso end = refl
  entries-again iso (entry k v es) = rw (jsonable-again iso v, entries-again iso es) refl

pub jsonable_entries-jsonable_entries :
    (iso : ℕ → String) (es : Entries)
    → jsonable_entries iso (jsonable_entries iso es) ≡ jsonable_entries iso es
jsonable_entries-jsonable_entries iso es = entries-again iso es

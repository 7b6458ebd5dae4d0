-- ===== src/Coordinators/Coercing/Merging.antt =====
-- Where the metadata comes from that `_coerce_queued_prompt` of nano_rl/runtime/coordinators.py makes.
use nano_rl.Prelude.{
  ℕ, String, ◌≡◌, refl, ap, ◌∙◌, ◌⊎◌, inl, inr, Bool-cases, Option-cases, Option, none, some, [],
  arith, if◌then◌else◌,
}
use nano_rl.Prelude.Equality.{◌==◌, string_eq}
use nano_rl.Prelude.Exec.{Result, ok, err}
use nano_rl.Prelude.Dict.{Dict, lookup, lookup-insert}
use nano_rl.Coordinators.{CoordinatorError, QueuedPrompt, bad_prompt, prompt_not_text, bad_metadata}
use nano_rl.WeightStore.Values.{
  Value, Entries, null, flag, number, instant, array, tuple, text, mapping, end, entry, field,
}
use nano_rl.Coordinators.Coercing.{
  Objects, reserved_key, set_default, copy_of, prompt_id_of, not_null, add_prompt_id, add_others,
  text_of, metadata_entries, metadata_dict, with_prompt, coerce_queued_prompt,
}

-- What the metadata holds under a key, by where it comes from.
abbrev pub or_else : Option ℕ → Option ℕ → Option ℕ
or_else (some v) later = some v
or_else none later = later

abbrev pub object_of : Objects → Option Value → Option ℕ
object_of o none = none
object_of o (some v) = some (o.object v)

abbrev pub id_text : Objects → Option Value → Option ℕ
id_text o none = none
id_text o (some v) = some (o.object (text (o.str v)))

lookup-set_default :
    (j k : String) (v : ℕ) (d : Dict String ℕ)
    → lookup j (set_default k v d) ≡ or_else (lookup j d) (if k == j then some v else none)
lookup-set_default j k v d = ground (arith, lookup-insert j k v d, string_eq.test_iff k j)

lookup-copy_of :
    (o : Objects) (key : String) (ms : Entries)
    → lookup key (copy_of o ms) ≡ object_of o (field key ms)
unfolding lookup copy_of field
lookup-copy_of o key end = refl
lookup-copy_of o key (entry k v ms) = ground (arith, lookup-copy_of o key ms)

lookup-add_prompt_id :
    (o : Objects) (key : String) (v : Option Value) (d : Dict String ℕ)
    → lookup key (add_prompt_id o v d)
      ≡ or_else (lookup key d) (if "prompt_id" == key then id_text o v else none)
lookup-add_prompt_id o key none d = ground arith
lookup-add_prompt_id o key (some v) d =
    lookup-set_default key "prompt_id" (o.object (text (o.str v))) d

-- An entry that the loop meets, and the entries after it.
after_entry :
    (o : Objects) (key k : String) (v : Value) (d : Dict String ℕ) (later : Option Value)
    → or_else
        (lookup key (if reserved_key k then d else set_default k (o.object v) d))
        (if reserved_key key then none else object_of o later)
      ≡ or_else
          (lookup key d)
          (if reserved_key key then none else object_of o (if k == key then some v else later))
after_entry o key k v d later =
    let met = lookup-set_default key k (o.object v) d in
    elim (Bool-cases (k == key)) [
      | inl e ↦
          let same : k ≡ key = (string_eq.test_iff k key).0 e in
          let alike : reserved_key k ≡ reserved_key key = ap (λ j. reserved_key j) same in
          ground (arith, e, alike, met)
      | inr e ↦ ground (arith, e, met)
    ]

lookup-add_others :
    (o : Objects) (key : String) (es : Entries) (d : Dict String ℕ)
    → lookup key (add_others o es d)
      ≡ or_else (lookup key d) (if reserved_key key then none else object_of o (field key es))
unfolding add_others field
lookup-add_others o key end d = ground arith
lookup-add_others o key (entry k v es) d =
    lookup-add_others o key es (if reserved_key k then d else set_default k (o.object v) d)
    ∙ after_entry o key k v d (field key es)

-- Where a metadata key of a queued prompt comes from.
abbrev pub metadata_source : Objects → Entries → Entries → String → Option ℕ
metadata_source o es ms key =
    or_else
      (or_else (object_of o (field key ms))
        (if "prompt_id" == key then id_text o (not_null (prompt_id_of es)) else none))
      (if reserved_key key then none else object_of o (field key es))

-- What becomes of a mapping.
abbrev pub MappingCoerced : Objects → Entries → Result CoordinatorError QueuedPrompt → Type 0
MappingCoerced o es (err e) =
    ((e ≡ prompt_not_text) × (text_of (field "prompt" es) ≡ none))
    ⊎ ((e ≡ bad_metadata) × (metadata_entries (field "metadata" es) ≡ none))
MappingCoerced o es (ok q) =
    (text_of (field "prompt" es) ≡ some q.prompt)
    × ((ms : Entries) × (metadata_entries (field "metadata" es) ≡ some ms)
        × ((key : String) → lookup key q.metadata ≡ metadata_source o es ms key))

-- What becomes of a prompt that a caller gives.
abbrev pub Coerced : Objects → Value → Result CoordinatorError QueuedPrompt → Type 0
Coerced o (text s) r = r ≡ ok (record { prompt = s; metadata = [] })
Coerced o (mapping es) r = MappingCoerced o es r
Coerced o v r = r ≡ err bad_prompt

lookup-metadata_dict :
    (o : Objects) (es ms : Entries) (key : String)
    → lookup key (metadata_dict o es ms) ≡ metadata_source o es ms key
unfolding metadata_dict
lookup-metadata_dict o es ms key = rw (lookup-add_others, lookup-add_prompt_id, lookup-copy_of) refl

mapping-Coerced :
    (o : Objects) (es : Entries)
    → MappingCoerced o es (with_prompt o es (text_of (field "prompt" es)))
mapping-Coerced o es = elim (Option-cases (text_of (field "prompt" es))) [
  | inl e ↦ rw e (inl (refl, e))
  | inr (s, e) ↦ rw e (elim (Option-cases (metadata_entries (field "metadata" es))) [
    | inl h ↦ rw h (inr (refl, h))
    | inr (ms, h) ↦ rw h (e, (ms, h, lookup-metadata_dict o es ms))
  ])
]

-- A text becomes a queued prompt without metadata. A mapping whose prompt is a text, and whose metadata
-- is a mapping, is `None` or is missing, becomes one with that text, and each key of its metadata holds
-- what the metadata of the mapping says; else, for the key `prompt_id`, the text of the mapping's
-- `prompt_id` or, without one, of its `id`, unless that is `None`; else, but for the four keys that are
-- read, what the mapping itself says. Any other mapping is refused with the error of the part that does
-- not fit, and so is any other value.
pub coerce_queued_prompt-Coerced :
    (o : Objects) (v : Value) → Coerced o v (coerce_queued_prompt o v)
unfolding coerce_queued_prompt
coerce_queued_prompt-Coerced o (text s) = refl
coerce_queued_prompt-Coerced o (mapping es) = mapping-Coerced o es
coerce_queued_prompt-Coerced o null = refl
coerce_queued_prompt-Coerced o (flag b) = refl
coerce_queued_prompt-Coerced o (number n) = refl
coerce_queued_prompt-Coerced o (instant n) = refl
coerce_queued_prompt-Coerced o (array xs) = refl
coerce_queued_prompt-Coerced o (tuple xs) = refl

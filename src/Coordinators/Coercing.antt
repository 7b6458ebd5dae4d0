-- ===== src/Coordinators/Coercing.antt =====
-- `_coerce_queued_prompt` of nano_rl/runtime/coordinators.py, and the two methods that call it.
pub mod Merging
use mathlib.Core.Path.{subst}
use nano_rl.Prelude.{
  ◌+◌, ◌++◌, length, length-append, length-map, ℕ, String, ◌≡◌, refl, ap, ◌∙◌, ◌⊎◌, inl, inr,
  Bool-cases, Option-cases, Bool, Option, none, some, List, [], ◌∷◌, ◌||◌, map, arith,
  if◌then◌else◌,
}
use nano_rl.Prelude.Equality.{◌==◌, string_eq}
use nano_rl.Prelude.Exec.{Result, ok, err}
use nano_rl.Prelude.Dict.{Dict, lookup, insert, has, lookup-insert}
use nano_rl.Coordinators.{
  CoordinatorError, RolloutManager, QueuedPrompt, GenerationRequest, Action, enqueue_prompts,
  dispatch_prompts, bad_prompt, prompt_not_text, bad_metadata,
}
use nano_rl.WeightStore.Values.{
  Value, Entries, null, flag, number, instant, array, tuple, text, mapping, end, entry, field,
}

-- What is not this code's: the number that stands for an object, and `str`.
pub record Objects : Type 0 where
  pub object : Value → ℕ
  pub str : Value → String

abbrev pub reserved_key : String → Bool
reserved_key key = key == "prompt" || (key == "metadata" || (key == "prompt_id" || key == "id"))

-- `d.setdefault(key, value)`
abbrev pub set_default : String → ℕ → Dict String ℕ → Dict String ℕ
set_default key value d = if has key d then d else insert key value d

-- `dict(raw_metadata)`
pub copy_of : Objects → Entries → Dict String ℕ
copy_of o end = []
copy_of o (entry key value es) = (key, o.object value) ∷ copy_of o es

-- `value.get("prompt_id", value.get("id"))`
abbrev pub prompt_id_of : Entries → Option Value
prompt_id_of es = elim (field "prompt_id" es) [ none ↦ field "id" es | some v ↦ some v ]

-- `prompt_id is not None`
abbrev pub not_null : Option Value → Option Value
not_null (some null) = none
not_null v = v

abbrev pub add_prompt_id : Objects → Option Value → Dict String ℕ → Dict String ℕ
add_prompt_id o none d = d
add_prompt_id o (some v) d = set_default "prompt_id" (o.object (text (o.str v))) d

-- The loop over the other keys.
pub add_others : Objects → Entries → Dict String ℕ → Dict String ℕ
add_others o end d = d
add_others o (entry key value es) d =
    add_others o es (if reserved_key key then d else set_default key (o.object value) d)

-- `isinstance(raw_prompt, str)`
abbrev pub text_of : Option Value → Option String
text_of (some (text s)) = some s
text_of v = none

-- `raw_metadata`, when it is a mapping; a missing one and `None` are empty.
abbrev pub metadata_entries : Option Value → Option Entries
metadata_entries none = some end
metadata_entries (some null) = some end
metadata_entries (some (mapping ms)) = some ms
metadata_entries (some v) = none

pub metadata_dict : Objects → Entries → Entries → Dict String ℕ
unfolding copy_of add_others
metadata_dict o es ms =
    add_others o es (add_prompt_id o (not_null (prompt_id_of es)) (copy_of o ms))

abbrev with_metadata :
    Objects → Entries → String → Option Entries → Result CoordinatorError QueuedPrompt
with_metadata o es prompt none = err bad_metadata
with_metadata o es prompt (some ms) =
    ok (record { prompt = prompt; metadata = metadata_dict o es ms })

abbrev pub with_prompt : Objects → Entries → Option String → Result CoordinatorError QueuedPrompt
with_prompt o es none = err prompt_not_text
with_prompt o es (some prompt) = with_metadata o es prompt (metadata_entries (field "metadata" es))

-- `_coerce_queued_prompt`
pub coerce_queued_prompt : Objects → Value → Result CoordinatorError QueuedPrompt
unfolding metadata_dict
coerce_queued_prompt o (text prompt) = ok (record { prompt = prompt; metadata = [] })
coerce_queued_prompt o (mapping es) = with_prompt o es (text_of (field "prompt" es))
coerce_queued_prompt o v = err bad_prompt

-- `enqueue_prompts` and `dispatch_prompts` on what a caller gives.
pub enqueue_values : Objects → List Value → Action ℕ
unfolding coerce_queued_prompt
enqueue_values o prompts = enqueue_prompts (map (coerce_queued_prompt o) prompts)

pub dispatch_values : Objects → List Value → (ℕ → String) → ℕ → ℕ → Action (List GenerationRequest)
unfolding coerce_queued_prompt
dispatch_values o prompts hexes version step =
    dispatch_prompts (map (coerce_queued_prompt o) prompts) hexes version step

-- When the prompts are enqueued, the backlog is longer by as many.
abbrev pub Enqueued : ℕ → Result CoordinatorError ℕ × RolloutManager → Type 0
Enqueued n (ok k, m) = length m.input_backlog ≡ n
Enqueued n (err e, m) = Unit

enqueue_prompts-Enqueued :
    (prompts : List (Result CoordinatorError QueuedPrompt)) (m : RolloutManager)
    → Enqueued (length m.input_backlog + length prompts) (enqueue_prompts prompts m)
unfolding enqueue_prompts
enqueue_prompts-Enqueued [] m = omega arith
enqueue_prompts-Enqueued (err e ∷ prompts) m = tt
enqueue_prompts-Enqueued (ok prompt ∷ prompts) m =
    let n = record m { input_backlog = m.input_backlog ++ (prompt ∷ []) } in
    subst (λ k. Enqueued k (enqueue_prompts prompts n))
      (omega (arith, length-append m.input_backlog (prompt ∷ [])))
      (enqueue_prompts-Enqueued prompts n)

pub enqueue_values-Enqueued :
    (o : Objects) (prompts : List Value) (m : RolloutManager)
    → Enqueued (length m.input_backlog + length prompts) (enqueue_values o prompts m)
unfolding enqueue_values
enqueue_values-Enqueued o prompts m =
    subst (λ k. Enqueued (length m.input_backlog + k) (enqueue_values o prompts m))
      (length-map (coerce_queued_prompt o) prompts)
      (enqueue_prompts-Enqueued (map (coerce_queued_prompt o) prompts) m)

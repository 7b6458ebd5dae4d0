-- ===== src/Training/Batching/Dealing.antt =====
-- How `PromptBatcher` of nano_rl/runtime/ray/training.py deals its records.
use nano_rl.Prelude.{
  ℕ, zero, suc, ◌+◌, ◌<◌, ◌≡◌, refl, ap, List, [], ◌∷◌, length, length-drop, ltb, arith, if_rule,
  max,
}
use nano_rl.Prelude.Exec.{Result, ok, err}
use nano_rl.DataSources.{PromptRecord, SourceError}
use nano_rl.DataSources.Building.{BuildError}
use nano_rl.DataSources.Sources.{at_most, limit_records}
use nano_rl.Training.{TrainingError}
use nano_rl.Training.Batching.{PromptBatcher, of_limited, from_config, cycled, next_records}

-- There is a record.
abbrev pub IsFilled : PromptBatcher → Type 0
IsFilled b = 0 < length b.records

module _ {A : Type 0} where
  length-cycled : (all rest : List A) (n : ℕ) → 0 < length all → length (cycled all rest n) ≡ n
  unfolding cycled
  length-cycled all rest zero h = refl
  length-cycled [] [] (suc n) h = absurd (omega arith)
  length-cycled [] (y ∷ ys) (suc n) h = absurd (omega arith)
  length-cycled (x ∷ xs) (y ∷ ys) (suc n) h = ap suc (length-cycled (x ∷ xs) ys n h)
  length-cycled (x ∷ xs) [] (suc n) h = ap suc (length-cycled (x ∷ xs) xs n h)

-- So many records, and the batcher stays filled.
abbrev pub Dealt : ℕ → Result TrainingError (List PromptRecord) × PromptBatcher → Type 0
Dealt count (ok records, b) = (length records ≡ count) × IsFilled b
Dealt count (err e, b) = Unit

pub next_records-Dealt :
    (count : ℕ) (b : PromptBatcher) → IsFilled b → Dealt count (next_records count b)
unfolding next_records
next_records-Dealt count b h =
    if_rule (Dealt count) (ltb count 1) _ _ (λ _. tt)
      (λ _. (
        omega (
          arith,
          length-drop b.index (cycled b.records b.records (b.index + count)),
          length-cycled b.records b.records (b.index + count) h,
        ),
        h,
      ))

-- A batcher that is made has a record.
abbrev pub Made : Result TrainingError PromptBatcher → Type 0
Made (ok b) = IsFilled b
Made (err e) = Unit

of_limited-Made : (r : Result SourceError (List PromptRecord)) → Made (of_limited r)
of_limited-Made (err e) = tt
of_limited-Made (ok []) = tt
of_limited-Made (ok (r ∷ rs)) = omega arith

pub from_config-Made :
    (source : Result BuildError (List PromptRecord)) (total : ℕ) → Made (from_config source total)
unfolding from_config
from_config-Made (err e) total = tt
from_config-Made (ok records) total =
    of_limited-Made (limit_records records (at_most (max 1 total)))

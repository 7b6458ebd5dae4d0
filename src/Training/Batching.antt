-- ===== src/Training/Batching.antt =====
-- `PromptBatcher` of nano_rl/runtime/ray/training.py.
pub mod Dealing
use nano_rl.Prelude.{
  ℕ, zero, suc, ◌+◌, ◌%◌, ◌<◌, ◌≡◌, refl, max, List, [], ◌∷◌, ◌++◌, length, take, drop, ltb, arith,
  if◌then◌else◌,
}
use nano_rl.Prelude.Exec.{Result, ok, err}
use nano_rl.DataSources.{PromptRecord, SourceError}
use nano_rl.DataSources.Building.{BuildError}
use nano_rl.DataSources.Building as Building
use nano_rl.DataSources.Sources.{at_most, limit_records}
use nano_rl.Training.{TrainingError, of_source, no_prompts, bad_count}

pub record PromptBatcher : Type 0 where
  pub records : List PromptRecord
  pub index : ℕ

abbrev pub of_limited : Result SourceError (List PromptRecord) → Result TrainingError PromptBatcher
of_limited (err e) = err (of_source (Building.of_source e))
of_limited (ok []) = err no_prompts
of_limited (ok (r ∷ rs)) = ok (record { records = r ∷ rs; index = 0 })

-- On what `build_prompt_source` gives: the error, or all that the source would yield.
pub from_config : Result BuildError (List PromptRecord) → ℕ → Result TrainingError PromptBatcher
unfolding limit_records
from_config (err e) total_required = err (of_source e)
from_config (ok records) total_required =
    of_limited (limit_records records (at_most (max 1 total_required)))

module _ {A : Type 0} where
  -- So many elements of `cycle(all)`, of which a part of the current round is left.
  unfoldable pub cycled : List A → List A → ℕ → List A
  cycled all rest zero = []
  cycled all (x ∷ rest) (suc n) = x ∷ cycled all rest n
  cycled [] [] (suc n) = []
  cycled (x ∷ xs) [] (suc n) = x ∷ cycled (x ∷ xs) xs n

-- `next_records`
pub next_records : ℕ → PromptBatcher → Result TrainingError (List PromptRecord) × PromptBatcher
unfolding cycled
next_records count b = if ltb count 1 then (err bad_count, b) else (
  ok (drop b.index (cycled b.records b.records (b.index + count))),
  record b { index = (b.index + count) % length b.records },
)

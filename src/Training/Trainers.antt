-- ===== src/Training/Trainers.antt =====
-- The calls of the trainer ranks of nano_rl/runtime/ray/training.py, and the state that is kept of each.
use nano_rl.Prelude.{ℕ, String, Bool, true, false, Option, none, some, List, [], ◌∷◌, if◌then◌else◌}
use nano_rl.Prelude.Equality.{◌==◌, nat_eq, string_eq}
use nano_rl.Prelude.Exec.{Result, pure, modify, ◌>>=◌}
use nano_rl.Prelude.Dict.{Dict, lookup, insert}
use nano_rl.Slot.Types.{GpuLease, TrainerRankSpec}
use nano_rl.Protocols.{WeightMeta, TrainBatch}
use nano_rl.WeightStore.Values.{Value}
use nano_rl.Training.{Actors, Local, start, get_all, or_error, not_rank_zero, no_lease}

-- `self._trainer_states[rank.rank] = state`, for each of the ranks
pub keep_states :
    List TrainerRankSpec → List (Option Value) → Dict ℕ (Option Value) → Dict ℕ (Option Value)
keep_states (r ∷ rs) (s ∷ ss) d = keep_states rs ss (insert r.rank s d)
keep_states _ _ d = d

abbrev is_given : Option (Option Value) → Bool
is_given (some (some s)) = true
is_given _ = false

pub all_initialized : Dict ℕ (Option Value) → List TrainerRankSpec → Bool
all_initialized d [] = true
all_initialized d (r ∷ rs) = if is_given (lookup r.rank d) then all_initialized d rs else false

abbrev state_of : Option (Option Value) → Option Value
state_of none = none
state_of (some s) = s

-- `zip(ranks, exports, strict=True)`, up to rank 0
pub first_export : List TrainerRankSpec → List WeightMeta → Option WeightMeta
first_export (r ∷ rs) (m ∷ ms) = if r.rank == 0 then some m else first_export rs ms
first_export _ _ = none

module _ {X : Type 0} (a : Actors X) where
  -- A call on each rank, in order; what they give is looked at later.
  unfoldable pub start_on_ranks :
      {A : Type 0}
      → (TrainerRankSpec → Local X (Result String A))
      → List TrainerRankSpec
      → Local X (List (Result String A))
  start_on_ranks call [] = pure []
  start_on_ranks call (r ∷ rs) = do
    started ← call r
    later ← start_on_ranks call rs
    pure (started ∷ later)

  pub initialize_trainers : List TrainerRankSpec → Local X (Unit {0})
  unfolding start_on_ranks keep_states
  initialize_trainers ranks = do
    refs ← start_on_ranks (λ r. start (a.initialize_rank r.rank)) ranks
    states ← get_all refs
    modify (λ h. record h { trainer_states = keep_states ranks states [] })

  pub ensure_trainers_initialized : List TrainerRankSpec → Local X (Unit {0})
  unfolding initialize_trainers all_initialized
  ensure_trainers_initialized ranks h =
      (if all_initialized h.trainer_states ranks then pure tt else initialize_trainers ranks) h

  -- `leases[rank.rank]`
  abbrev pub lease_for : Dict ℕ GpuLease → ℕ → Local X GpuLease
  lease_for leases rank = or_error (no_lease rank) (lookup rank leases)

  pub hydrate_trainers : Dict ℕ GpuLease → List TrainerRankSpec → Local X (Unit {0})
  unfolding start_on_ranks keep_states
  hydrate_trainers leases ranks = do
    refs ←
        start_on_ranks
          (λ r. do
            lease ← lease_for leases r.rank
            λ h. start (a.hydrate r.rank (state_of (lookup r.rank h.trainer_states)) lease) h)
          ranks
    states ← get_all refs
    modify (λ h. record h { trainer_states = keep_states ranks states h.trainer_states })

  pub optimize_trainers : TrainBatch → Dict ℕ GpuLease → List TrainerRankSpec → Local X (List Value)
  unfolding start_on_ranks
  optimize_trainers batch leases ranks = do
    refs ←
        start_on_ranks
          (λ r. do lease ← lease_for leases r.rank; start (a.optimize r.rank batch lease)) ranks
    get_all refs

  pub export_weight_from_trainers : WeightMeta → List TrainerRankSpec → Local X WeightMeta
  unfolding start_on_ranks first_export
  export_weight_from_trainers current ranks = do
    refs ← start_on_ranks (λ r. start (a.export_weight r.rank current (r.rank == 0))) ranks
    exports ← get_all refs
    or_error not_rank_zero (first_export ranks exports)

  pub offload_trainers : Dict ℕ GpuLease → List TrainerRankSpec → Local X (Unit {0})
  unfolding start_on_ranks keep_states
  offload_trainers leases ranks = do
    refs ←
        start_on_ranks
          (λ r. do lease ← lease_for leases r.rank; start (a.offload_trainer r.rank lease)) ranks
    states ← get_all refs
    modify (λ h. record h { trainer_states = keep_states ranks states h.trainer_states })

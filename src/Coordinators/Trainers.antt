-- ===== src/Coordinators/Trainers.antt =====
-- `TrainerCoordinatorCore` of nano_rl/runtime/coordinators.py.
use nano_rl.Prelude.{ℕ, ◌+◌, String, Option, List, [], ◌∷◌, map, length}
use nano_rl.Prelude.Equality.{nat_eq, string_eq}
use nano_rl.Prelude.Exec.{Result, ok, err}
use nano_rl.Slot.Types.{TrainerRankSpec}
use nano_rl.Protocols.{TrainBatch}
use nano_rl.SampleQueue.{SampleQueue, reserve_train_batch}
use Prim.Native.String.{◌++◌ as str_append}
use nano_rl.Coordinators.{CoordinatorError, no_trainer_ranks}

pub record RankAssignment : Type 0 where
  pub rank : ℕ
  pub gpu_id : ℕ
  pub trainer_class : String
  pub ray_resource : String

pub record TrainerCoordinator : Type 0 where
  pub group_epoch : ℕ
  pub rank_assignments : List RankAssignment

abbrev assignment_of : TrainerRankSpec → RankAssignment
assignment_of s = record {
  rank = s.rank;
  gpu_id = s.gpu_id;
  trainer_class = s.trainer_class;
  ray_resource = s.ray_resource;
}

-- `TrainerCoordinatorCore.__init__`
pub create_trainers : List TrainerRankSpec → Result CoordinatorError TrainerCoordinator
create_trainers [] = err no_trainer_ranks
create_trainers (r ∷ rs) =
    ok (record { group_epoch = 0; rank_assignments = map assignment_of (r ∷ rs) })

abbrev pub world_size : TrainerCoordinator → ℕ
world_size t = length t.rank_assignments

pub rebuild_group : TrainerCoordinator → ℕ × TrainerCoordinator
rebuild_group t = (t.group_epoch + 1, record t { group_epoch = t.group_epoch + 1 })

-- `TrainerCoordinatorCore.reserve_batch`, with the decimal text of a number, the time and the
-- `uuid4().hex` of the batch.
pub reserve_batch :
    (ℕ → String)
    → TrainerCoordinator
    → ℕ
    → ℕ
    → Option ℕ
    → ℕ
    → String
    → SampleQueue
    → Option TrainBatch × SampleQueue
reserve_batch decimal t current_policy_version max_sequences max_tokens now hex queue =
    reserve_train_batch
      (record {
        reserved_by = str_append "trainer-group-" (decimal t.group_epoch);
        current_policy_version = current_policy_version;
        max_sequences = max_sequences;
        max_tokens = max_tokens;
        lease_ttl_sec = 300;
        now = now;
      })
      hex queue

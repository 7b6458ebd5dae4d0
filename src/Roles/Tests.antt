-- ===== src/Roles/Tests.antt =====
-- A replica of nano_rl/runtime/roles.py with two GPUs and a lease for each.
use nano_rl.Prelude.{ℕ, String, ◌≡◌, refl, arith, none, some, List, [], ◌∷◌}
use nano_rl.Prelude.Dict.{lookup, insert}
use nano_rl.Prelude.Exec.{ok}
use nano_rl.Slot.Names.{rollout}
use nano_rl.Slot.Types.{GpuLease}
use nano_rl.Roles.{ReplicaController, assert_rollout_leases, zip_dict, check_leases, check_lease}
use nano_rl.Coordinators.{GenerationRequest}
use nano_rl.Roles.Generating.{Outside, Generated, generate, generate-Generated}

abbrev replica : ReplicaController
replica = record {
  replica_id = "r0";
  gpu_ids = 0 ∷ 1 ∷ [];
  worker_ids = "w0" ∷ "w1" ∷ [];
  active_policy_version = none;
  active_weight_checksum = none;
  active_lease_epochs = none;
  active_weight_source = none;
}

abbrev lease : ℕ → String → GpuLease
lease gpu holder = record { gpu_id = gpu; role = rollout; holder_id = holder; lease_epoch = 4 }

abbrev leases : List GpuLease
leases = lease 1 "w1" ∷ lease 0 "w0" ∷ []

leases-pass : assert_rollout_leases replica leases ≡ ok tt
unfolding assert_rollout_leases zip_dict check_leases check_lease lookup insert
leases-pass = refl

abbrev outside : Outside
outside = record {
  sha256 = λ text. 1 ∷ 2 ∷ 3 ∷ 4 ∷ 5 ∷ 6 ∷ 7 ∷ 8 ∷ 9 ∷ 10 ∷ 11 ∷ 12 ∷ 13 ∷ 14 ∷ 15 ∷ 16 ∷ 17 ∷ [];
  words = λ text. 3;
  decimal = λ n. "5";
}

abbrev request : GenerationRequest
request = record {
  request_id = "rollout-1";
  replica_id = "r0";
  prompt = "say hi";
  target_policy_version = 5;
  metadata = [];
}

abbrev active_replica : ReplicaController
active_replica = record replica { active_policy_version = some 5 }

generate-Generated_example :
    Generated request active_replica leases (generate outside 9 request leases active_replica)
generate-Generated_example =
    generate-Generated outside 9 request leases active_replica (λ text. omega arith)

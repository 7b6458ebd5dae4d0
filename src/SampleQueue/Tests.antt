-- ===== src/SampleQueue/Tests.antt =====
-- The sample queue of nano_rl/runtime/sample_queue.py on a few calls.
use Prim.Native.String.{◌++◌ as str_append}
use nano_rl.Prelude.{◌≡◌, ◌≢◌, ◌↔◌, refl, String, true, false, none, some, [], ◌∷◌, arith, one}
use nano_rl.Prelude.Equality.{contains, string_eq}
use nano_rl.Prelude.Dict.{lookup, has, insert, erase}
use nano_rl.Protocols.{SampleRecord}
use nano_rl.SampleQueue.{
  SampleQueue, Request, create, submit_sample, reserve_train_batch, ack_batch, accepted,
  dropped_ttl,
}
use nano_rl.SampleQueue.Places.{IsConsistent, places, create-IsConsistent, reserved_count}
use nano_rl.SampleQueue.Histories.{
  Reach, here, later, submits, reserves, acks, Reach-IsConsistent, one_place,
}
use nano_rl.SampleQueue.Admission.{IsWelcome, Effect, accepted_iff, submit-Effect}
use nano_rl.SampleQueue.Lifetimes.{acked_for_good}
use nano_rl.SampleQueue.Batches.{Outcome, reserve_sound, reserve_serves}
use nano_rl.SampleQueue.Returning.{Undone, release_undoes_reserve}

abbrev pub sample : String → SampleRecord
sample id = record {
  sample_id = id;
  policy_version = 3;
  tokens = 5 ∷ 6 ∷ [];
  created_at = 0;
  expires_at = none;
  response_tokens = none;
  policy_segments = none;
}

abbrev empty : SampleQueue
empty = create 1 10 4

abbrev one_waiting : SampleQueue
one_waiting = (submit_sample (sample "a") 3 none 7 empty).1

abbrev two_waiting : SampleQueue
two_waiting = (submit_sample (sample "b") 4 none 8 one_waiting).1

abbrev request : Request
request = record {
  reserved_by = "trainer-group-0";
  current_policy_version = 4;
  max_sequences = 1;
  max_tokens = some 1;
  lease_ttl_sec = 300;
  now = 9;
}

abbrev one_reserved : SampleQueue
one_reserved = (reserve_train_batch request "f0" two_waiting).1

abbrev one_acked : SampleQueue
one_acked = (ack_batch "train-f0" one_reserved).1

filled : Reach empty two_waiting
filled =
    later (later here (submits (sample "a") 3 none 7 empty))
      (submits (sample "b") 4 none 8 one_waiting)

free_id : has (str_append "train-" "f0") two_waiting.reserved ≡ false
unfolding create submit_sample lookup insert
free_id = refl

reserved_path : Reach empty one_reserved
reserved_path = later filled (reserves request "f0" two_waiting free_id)

filled-IsConsistent : IsConsistent two_waiting
filled-IsConsistent = Reach-IsConsistent (create-IsConsistent 1 10 4) filled

-- "a" is trained on and "b" waits.
trained : one_acked.acked ≡ "a" ∷ []
unfolding create submit_sample reserve_train_batch ack_batch lookup insert erase
trained = refl

-- A record past its expiry is dropped: at ten seconds exactly it is too late.
late : (submit_sample (sample "c") 3 none 10_000_000 empty).0 ≡ dropped_ttl
unfolding create submit_sample
late = refl

one_place_example : places "a" one_reserved ≡ one (contains "a" one_reserved.seen)
one_place_example = one_place 1 10 4 one_reserved reserved_path "a"

accepted_iff_example :
    ((submit_sample (sample "a") 3 none 7 empty).0 ≡ accepted) ↔ IsWelcome (sample "a") 3 7 empty
accepted_iff_example = accepted_iff (sample "a") 3 none 7 empty

submit-Effect_example : Effect (sample "a") none empty (submit_sample (sample "a") 3 none 7 empty)
submit-Effect_example = submit-Effect (sample "a") 3 none 7 empty

acked_for_good_example :
    let r = (submit_sample (sample "a") 3 none 9 one_acked).1 in
    (contains "a" r.acked ≡ true)
    × (has "a" r.pending ≡ false)
    × (reserved_count "a" r.reserved ≡ 0)
    × (has "a" r.dropped ≡ false)
unfolding create submit_sample reserve_train_batch ack_batch lookup insert erase
acked_for_good_example =
    acked_for_good 1 10 4 one_acked _ "a" (later reserved_path (acks "train-f0" one_reserved)) refl
      (later here (submits (sample "a") 3 none 9 one_acked))

reserve_sound_example : Outcome request two_waiting (reserve_train_batch request "f0" two_waiting)
reserve_sound_example = reserve_sound request "f0" two_waiting filled-IsConsistent

reserve_serves_example : (reserve_train_batch request "f0" two_waiting).0 ≢ none
unfolding create submit_sample lookup insert
reserve_serves_example =
    reserve_serves request "f0" two_waiting "a" _ (omega arith) refl
      (record { in_time = refl; recent = omega arith })

release_undoes_reserve_example : Undone two_waiting (reserve_train_batch request "f0" two_waiting)
release_undoes_reserve_example =
    release_undoes_reserve request "f0" two_waiting filled-IsConsistent free_id

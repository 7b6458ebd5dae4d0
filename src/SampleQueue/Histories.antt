-- ===== src/SampleQueue/Histories.antt =====
-- Histories of calls on `SampleQueueActorCore` of nano_rl/runtime/sample_queue.py.
use Prim.Native.String.{◌++◌ as str_append}
use nano_rl.Prelude.{
  ℕ, String, ◌≡◌, refl, false, Option, List, [], ◌∷◌, Option-cases, inl, inr, one, leb, if_rule,
}
use nano_rl.Prelude.Equality.{string_eq, contains}
use nano_rl.Prelude.Dict.{lookup, has}
use nano_rl.Protocols.{SampleRecord, SampleRef, oldest_behavior_policy_version}
use nano_rl.SampleQueue.{
  SampleQueue, Request, create, submit_sample, reserve_train_batch, reserve_selected, select,
  ack_batch, release_batch, batch_of, ref_of, QueueDecision, expiry, lags, depth,
}
use nano_rl.SampleQueue.Places.{
  IsConsistent, create-IsConsistent, drop-IsConsistent, admit-IsConsistent, places,
}
use nano_rl.SampleQueue.Reserving.{move-IsConsistent, ack-IsConsistent}
use nano_rl.SampleQueue.Releasing.{release-IsConsistent}
use nano_rl.SampleQueue.Selecting.{LoopInv, select-LoopInv}

-- One call, in vain or not. A new batch gets an id that no reserved batch has.
pub data Step : SampleQueue → SampleQueue → Type 0 where
  submits :
      (r : SampleRecord) (version : ℕ) (object_ref : Option ℕ) (now : ℕ) (q : SampleQueue)
      → Step q (submit_sample r version object_ref now q).1
  reserves :
      (a : Request) (hex : String) (q : SampleQueue)
      → has (str_append "train-" hex) q.reserved ≡ false
      → Step q (reserve_train_batch a hex q).1
  acks : (id : String) (q : SampleQueue) → Step q (ack_batch id q).1
  releases : (id : String) (q : SampleQueue) → Step q (release_batch id q).1

pub data Reach (q : SampleQueue) : SampleQueue → Type 0 where
  here : Reach q q
  later : {r s : SampleQueue} → Reach q r → Step r s → Reach q s

abbrev KeptBy : QueueDecision × SampleQueue → Type 0
KeptBy (decision, q) = IsConsistent q

submit-IsConsistent :
    (r : SampleRecord) (version : ℕ) (object_ref : Option ℕ) (now : ℕ) (q : SampleQueue)
    → IsConsistent q
    → IsConsistent (submit_sample r version object_ref now q).1
unfolding submit_sample
submit-IsConsistent r version object_ref now q v =
    if_rule KeptBy (contains r.sample_id q.seen) _ _ (λ _. v)
      λ new.
        if_rule KeptBy (leb (expiry q r) now) _ _ (λ _. drop-IsConsistent r.sample_id "ttl" q new v)
          λ _.
            if_rule KeptBy (lags q version (oldest_behavior_policy_version r)) _ _
              (λ _. drop-IsConsistent r.sample_id "policy_lag" q new v)
              λ _.
                if_rule KeptBy (leb q.queue_high_watermark (depth q)) _ _
                  (λ _. drop-IsConsistent r.sample_id "queue_high_watermark" q new v)
                  (λ _. admit-IsConsistent (ref_of q r object_ref) q new v)

pub reserve_selected-IsConsistent :
    (a : Request) (hex : String) (selected : List SampleRef) (before q : SampleQueue)
    → LoopInv a before [] q selected
    → has (str_append "train-" hex) before.reserved ≡ false
    → IsConsistent (reserve_selected a hex selected q).1
unfolding reserve_selected
reserve_selected-IsConsistent a hex [] before q v fresh = v.consistent
reserve_selected-IsConsistent a hex (ref ∷ refs) before q v fresh =
    move-IsConsistent q (ref ∷ refs) (str_append "train-" hex) (batch_of a hex ref refs)
      v.consistent v.selected_pending v.selected_unique (rw v.same_reserved fresh) refl refl

reserve-IsConsistent :
    (a : Request) (hex : String) (q : SampleQueue)
    → IsConsistent q
    → has (str_append "train-" hex) q.reserved ≡ false
    → IsConsistent (reserve_train_batch a hex q).1
unfolding reserve_train_batch
reserve-IsConsistent a hex q v fresh =
    reserve_selected-IsConsistent a hex (select a q.pending q [] 0).1 q
      (select a q.pending q [] 0).0 (select-LoopInv a q v) fresh

ack_batch-IsConsistent :
    (id : String) (q : SampleQueue) → IsConsistent q → IsConsistent (ack_batch id q).1
unfolding ack_batch
ack_batch-IsConsistent id q v = elim (Option-cases (lookup id q.reserved)) [
  | inl e ↦ rw e v
  | inr (batch, e) ↦ rw e (ack-IsConsistent id batch q v e)
]

release_batch-IsConsistent :
    (id : String) (q : SampleQueue) → IsConsistent q → IsConsistent (release_batch id q).1
unfolding release_batch
release_batch-IsConsistent id q v = elim (Option-cases (lookup id q.reserved)) [
  | inl e ↦ rw e v
  | inr (batch, e) ↦ rw e (release-IsConsistent id batch q v e)
]

-- Every call keeps each seen sample in exactly one place, and every other sample in none.
Step-IsConsistent : {q r : SampleQueue} → Step q r → IsConsistent q → IsConsistent r
Step-IsConsistent (submits r version object_ref now q) v =
    submit-IsConsistent r version object_ref now q v
Step-IsConsistent (reserves a hex q fresh) v = reserve-IsConsistent a hex q v fresh
Step-IsConsistent (acks id q) v = ack_batch-IsConsistent id q v
Step-IsConsistent (releases id q) v = release_batch-IsConsistent id q v

pub Reach-IsConsistent : {q r : SampleQueue} → IsConsistent q → Reach q r → IsConsistent r
Reach-IsConsistent v here = v
Reach-IsConsistent v (later h s) = Step-IsConsistent s (Reach-IsConsistent v h)

-- In whatever order samples are submitted, reserved, acknowledged and released, as long as a new batch
-- never takes the id of a reserved one: each sample that the queue has seen is in exactly one place
-- (pending, once in one reserved batch, acknowledged or dropped), and a sample that it has not seen is
-- in none.
pub one_place :
    (max_lag ttl mark : ℕ) (q : SampleQueue)
    → Reach (create max_lag ttl mark) q
    → (s : String) → places s q ≡ one (contains s q.seen)
one_place max_lag ttl mark q h = (Reach-IsConsistent (create-IsConsistent max_lag ttl mark) h).once

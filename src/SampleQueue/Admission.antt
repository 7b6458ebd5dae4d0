-- ===== src/SampleQueue/Admission.antt =====
-- The decisions of `submit_sample` in nano_rl/runtime/sample_queue.py.
use nano_rl.Prelude.{
  ℕ, ◌+◌, ◌≤◌, ◌<◌, ◌≡◌, ◌↔◌, refl, true, false, Option, some, arith, length, suc, leb, if_rule,
  if◌then◌else◌,
}
use nano_rl.Prelude.Equality.{string_eq, contains, add, contains-add}
use nano_rl.Prelude.Dict.{lookup, has, insert, lookup-insert_self, length-insert}
use nano_rl.Protocols.{SampleRecord, oldest_behavior_policy_version}
use nano_rl.SampleQueue.{
  SampleQueue, QueueDecision, accepted, duplicate, dropped_ttl, dropped_policy_lag,
  dropped_high_watermark, submit_sample, expiry, depth, ref_of, lags,
}

-- The conditions under which a record is let in, as the queue's parameters state them.
pub record IsWelcome (r : SampleRecord) (version now : ℕ) (q : SampleQueue) : Type 0 where
  pub is_new : contains r.sample_id q.seen ≡ false
  pub in_time : now < expiry q r
  pub recent : version ≤ q.max_policy_lag + oldest_behavior_policy_version r
  pub has_room : depth q < q.queue_high_watermark

-- Exactly the records that are new, in time, recent enough and for which there is room are accepted.
pub accepted_iff :
    (r : SampleRecord) (version : ℕ) (object_ref : Option ℕ) (now : ℕ) (q : SampleQueue)
    → ((submit_sample r version object_ref now q).0 ≡ accepted) ↔ IsWelcome r version now q
unfolding submit_sample
accepted_iff r version object_ref now q = (
  λ h. record {
    is_new = ground arith;
    in_time = ground arith;
    recent = ground arith;
    has_room = ground arith;
  },
  λ w. ground (arith, w.is_new, w.in_time, w.recent, w.has_room),
)

-- What a decision leaves behind.
abbrev pub Effect : SampleRecord → Option ℕ → SampleQueue → QueueDecision × SampleQueue → Type 0
Effect r object_ref q (duplicate, s) = (s ≡ q) × (contains r.sample_id q.seen ≡ true)
Effect r object_ref q (accepted, s) =
    (lookup r.sample_id s.pending ≡ some (ref_of q r object_ref))
    × (s.dropped ≡ q.dropped)
    × (contains r.sample_id s.seen ≡ true)
    × (length s.pending ≤ suc (length q.pending))
    × (depth s ≤ s.queue_high_watermark)
Effect r object_ref q (dropped_ttl, s) =
    (s.pending ≡ q.pending)
    × (lookup r.sample_id s.dropped ≡ some "ttl")
    × (contains r.sample_id s.seen ≡ true)
Effect r object_ref q (dropped_policy_lag, s) =
    (s.pending ≡ q.pending)
    × (lookup r.sample_id s.dropped ≡ some "policy_lag")
    × (contains r.sample_id s.seen ≡ true)
Effect r object_ref q (dropped_high_watermark, s) =
    (s.pending ≡ q.pending)
    × (lookup r.sample_id s.dropped ≡ some "queue_high_watermark")
    × (contains r.sample_id s.seen ≡ true)

-- `submit_sample`, by its decision. Accepted: the sample's reference is pending, nothing else is
-- dropped, at most one entry is added and the high watermark is kept. Dropped: the pending samples
-- are as before and the reason is noted. Either way the id counts as seen. A duplicate was seen
-- before and changes nothing.
pub submit-Effect :
    (r : SampleRecord) (version : ℕ) (object_ref : Option ℕ) (now : ℕ) (q : SampleQueue)
    → Effect r object_ref q (submit_sample r version object_ref now q)
unfolding submit_sample
submit-Effect r version object_ref now q =
    if_rule P (contains r.sample_id q.seen) _ _ (λ old. (refl, old))
      λ new.
        if_rule P (leb (expiry q r) now) _ _
          (λ _. (refl, lookup-insert_self r.sample_id "ttl" q.dropped, now_seen))
          λ _.
            if_rule P (lags q version (oldest_behavior_policy_version r)) _ _
              (λ _. (refl, lookup-insert_self r.sample_id "policy_lag" q.dropped, now_seen))
              λ _.
                if_rule P (leb q.queue_high_watermark (depth q)) _ _
                  (λ _. (
                    refl,
                    lookup-insert_self r.sample_id "queue_high_watermark" q.dropped,
                    now_seen,
                  ))
                  λ room. (
                    lookup-insert_self r.sample_id (ref_of q r object_ref) q.pending,
                    refl,
                    now_seen,
                    ground (arith, grown),
                    ground (arith, grown),
                  )
  where
    P : QueueDecision × SampleQueue → Type 0
    P = Effect r object_ref q

    now_seen : contains r.sample_id (add r.sample_id q.seen) ≡ true
    now_seen = ground (
      arith,
      contains-add r.sample_id r.sample_id q.seen,
      string_eq.test_iff r.sample_id r.sample_id,
    )

    grown :
        length (insert r.sample_id (ref_of q r object_ref) q.pending)
        ≡ (if has r.sample_id q.pending then length q.pending else suc (length q.pending))
    grown = length-insert r.sample_id (ref_of q r object_ref) q.pending

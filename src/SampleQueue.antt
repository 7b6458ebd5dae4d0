-- ===== src/SampleQueue.antt =====
-- `SampleQueueActorCore` of nano_rl/runtime/sample_queue.py. The clock (`now`) and the hexadecimal
-- part of a new batch's id (`uuid4().hex`) are arguments.
pub mod Places
pub mod Reserving
pub mod Releasing
pub mod Loop
pub mod Selecting
pub mod Budget
pub mod Histories
pub mod Admission
pub mod Lifetimes
pub mod Batches
pub mod Returning
pub mod Tests
use Prim.Native.String.{◌++◌ as str_append}
use nano_rl.Prelude.{
  ℕ, zero, suc, ◌+◌, min, max, String, Bool, true, false, not, Option, none, some, List, [], ◌∷◌,
  ◌++◌, map, length, sum, ltb, leb, if◌then◌else◌,
}
use nano_rl.Prelude.Equality.{nat_eq, string_eq, contains, add}
use nano_rl.Prelude.Exec.{Result, ok, err, Exec}
use nano_rl.Prelude.Dict.{Dict, lookup, has, insert, erase}
use nano_rl.Protocols.{SampleRecord, SampleRef, TrainBatch, seconds, oldest_behavior_policy_version}

pub data QueueDecision : Type 0 where
  accepted duplicate dropped_ttl dropped_policy_lag dropped_high_watermark : QueueDecision

-- `QueueError`
pub data QueueError : Type 0 where
  unknown_train_batch : String → QueueError

pub record SampleQueue : Type 0 where
  pub max_policy_lag : ℕ
  pub sample_ttl_sec : ℕ
  pub queue_high_watermark : ℕ
  pub pending : Dict String SampleRef
  pub reserved : Dict String TrainBatch
  pub acked : List String
  pub dropped : Dict String String
  pub seen : List String

pub create : ℕ → ℕ → ℕ → SampleQueue
create max_policy_lag sample_ttl_sec queue_high_watermark = record {
  max_policy_lag = max_policy_lag;
  sample_ttl_sec = sample_ttl_sec;
  queue_high_watermark = queue_high_watermark;
  pending = [];
  reserved = [];
  acked = [];
  dropped = [];
  seen = [];
}

abbrev pub drop : String → String → SampleQueue → SampleQueue
drop sample_id reason q = record q {
  seen = add sample_id q.seen;
  dropped = insert sample_id reason q.dropped;
}

-- `x or y`, for optional numbers: zero counts as missing.
abbrev pub nonzero_or : Option ℕ → ℕ → ℕ
nonzero_or none d = d
nonzero_or (some zero) d = d
nonzero_or (some (suc n)) d = suc n

-- `x or y`, for an optional instant
abbrev pub given_or : Option ℕ → ℕ → ℕ
given_or none d = d
given_or (some t) d = t

abbrev pub expiry : SampleQueue → SampleRecord → ℕ
expiry q r = given_or r.expires_at (r.created_at + seconds q.sample_ttl_sec)

-- `current - version > max_policy_lag`, over the integers
abbrev pub lags : SampleQueue → ℕ → ℕ → Bool
lags q current version = ltb (q.max_policy_lag + version) current

-- `len(pending) + len(reserved)`: samples plus batches
abbrev pub depth : SampleQueue → ℕ
depth q = length q.pending + length q.reserved

abbrev pub ref_of : SampleQueue → SampleRecord → Option ℕ → SampleRef
ref_of q r object_ref = record {
  sample_id = r.sample_id;
  policy_version = oldest_behavior_policy_version r;
  created_at = r.created_at;
  expires_at = some (expiry q r);
  object_ref = object_ref;
  num_tokens = nonzero_or r.response_tokens (length r.tokens);
}

-- The decision of `submit_sample` with the queue after it; the result's text is left out.
pub submit_sample : SampleRecord → ℕ → Option ℕ → ℕ → SampleQueue → QueueDecision × SampleQueue
unfolding oldest_behavior_policy_version
submit_sample r current_policy_version object_ref now q =
    if contains r.sample_id q.seen
    then (duplicate, q)
    else if leb (expiry q r) now
    then (dropped_ttl, drop r.sample_id "ttl" q)
    else if lags q current_policy_version (oldest_behavior_policy_version r)
    then (dropped_policy_lag, drop r.sample_id "policy_lag" q)
    else if leb q.queue_high_watermark (depth q)
    then (dropped_high_watermark, drop r.sample_id "queue_high_watermark" q)
    else (
      accepted,
      record q {
        pending = insert r.sample_id (ref_of q r object_ref) q.pending;
        seen = add r.sample_id q.seen;
      },
    )

-- The limits of one reservation.
pub record Request : Type 0 where
  pub reserved_by : String
  pub current_policy_version : ℕ
  pub max_sequences : ℕ
  pub max_tokens : Option ℕ
  pub lease_ttl_sec : ℕ
  pub now : ℕ

abbrev pub expired : Option ℕ → ℕ → Bool
expired none now = false
expired (some t) now = leb t now

-- `max_tokens is not None and selected and selected_tokens + ref.num_tokens > max_tokens`
abbrev pub over_budget : Option ℕ → List SampleRef → ℕ → SampleRef → Bool
over_budget none selected tokens ref = false
over_budget (some limit) [] tokens ref = false
over_budget (some limit) (x ∷ xs) tokens ref = ltb limit (tokens + ref.num_tokens)

-- What one round of the selection loop does with its entry.
pub data Verdict : Type 0 where
  expire lag stop take : Verdict

pub judge : Request → SampleQueue → List SampleRef → ℕ → SampleRef → Verdict
judge a q selected tokens ref =
    if expired ref.expires_at a.now
    then expire
    else if lags q a.current_policy_version ref.policy_version
    then lag
    else if leb a.max_sequences (length selected)
    then stop
    else if over_budget a.max_tokens selected tokens ref
    then stop
    else take

-- `self._pending.pop(sample_id)`, then `self._drop(sample_id, reason)`
abbrev pub discard : String → String → SampleQueue → SampleQueue
discard sample_id reason q =
    drop sample_id reason (record q { pending = erase sample_id q.pending })

-- The loop over `list(self._pending.items())`.
pub select :
    Request
    → List (String × SampleRef)
    → SampleQueue
    → List SampleRef
    → ℕ
    → SampleQueue × List SampleRef
select a [] q selected tokens = (q, selected)
select a ((sample_id, ref) ∷ rest) q selected tokens = elim (judge a q selected tokens ref) [
  | expire ↦ select a rest (discard sample_id "ttl" q) selected tokens
  | lag ↦ select a rest (discard sample_id "policy_lag" q) selected tokens
  | stop ↦ (q, selected)
  | take ↦ select a rest q (selected ++ (ref ∷ [])) (tokens + ref.num_tokens)
]

abbrev pub count_or_zero : Option ℕ → ℕ
count_or_zero none = 0
count_or_zero (some n) = n

-- `for version in versions: histogram[version] = histogram.get(version, 0) + 1`
pub tally : List ℕ → Dict ℕ ℕ → Dict ℕ ℕ
tally [] h = h
tally (v ∷ vs) h = tally vs (insert v (count_or_zero (lookup v h) + 1) h)

abbrev pub min_of : ℕ → List ℕ → ℕ
min_of v [] = v
min_of v (w ∷ ws) = min v (min_of w ws)

abbrev pub max_of : ℕ → List ℕ → ℕ
max_of v [] = v
max_of v (w ∷ ws) = max v (max_of w ws)

abbrev pub version_of : SampleRef → ℕ
version_of ref = ref.policy_version

abbrev pub id_of : SampleRef → String
id_of ref = ref.sample_id

abbrev pub tokens_of : SampleRef → ℕ
tokens_of ref = ref.num_tokens

-- The batch of a non-empty selection.
pub batch_of : Request → String → SampleRef → List SampleRef → TrainBatch
unfolding tally
batch_of a hex ref refs = record {
  train_batch_id = str_append "train-" hex;
  sample_refs = ref ∷ refs;
  sample_ids = map id_of (ref ∷ refs);
  policy_version_min = min_of ref.policy_version (map version_of refs);
  policy_version_max = max_of ref.policy_version (map version_of refs);
  policy_version_histogram = tally (map version_of (ref ∷ refs)) [];
  num_sequences = length (ref ∷ refs);
  num_tokens = sum (map tokens_of (ref ∷ refs));
  reserved_by = a.reserved_by;
  reserved_at = a.now;
  expires_at = some (a.now + seconds a.lease_ttl_sec);
}

-- `for ref in selected: self._pending.pop(ref.sample_id, None)`
pub pop_all : List SampleRef → Dict String SampleRef → Dict String SampleRef
pop_all [] d = d
pop_all (ref ∷ refs) d = pop_all refs (erase ref.sample_id d)

pub reserve_selected :
    Request → String → List SampleRef → SampleQueue → Option TrainBatch × SampleQueue
unfolding batch_of
reserve_selected a hex [] q = (none, q)
reserve_selected a hex (ref ∷ refs) q =
    let batch = batch_of a hex ref refs in
    (
      some batch,
      record q {
        pending = pop_all (ref ∷ refs) q.pending;
        reserved = insert batch.train_batch_id batch q.reserved;
      },
    )

pub reserve_train_batch : Request → String → SampleQueue → Option TrainBatch × SampleQueue
unfolding select judge pop_all reserve_selected
reserve_train_batch a hex q =
    let (q', selected) = select a q.pending q [] 0 in reserve_selected a hex selected q'

abbrev pub Action : Type 0 → Type 0
Action A = Exec SampleQueue QueueError A

-- `set.update`
pub add_all : List String → List String → List String
add_all [] s = s
add_all (x ∷ xs) s = add_all xs (add x s)

abbrev pub ack_found : Option TrainBatch → String → Action (Unit {0})
ack_found none id q = (err (unknown_train_batch id), q)
ack_found (some batch) id q =
    (ok tt, record q { reserved = erase id q.reserved; acked = add_all batch.sample_ids q.acked })

pub ack_batch : String → Action (Unit {0})
unfolding add_all
ack_batch id q = ack_found (lookup id q.reserved) id q

-- The loop of `release_batch`.
pub put_back : List SampleRef → SampleQueue → SampleQueue
put_back [] q = q
put_back (ref ∷ refs) q = put_back refs (
    if contains ref.sample_id q.acked
    then q
    else if has ref.sample_id q.dropped
    then q
    else record q { pending = insert ref.sample_id ref q.pending })

abbrev pub release_found : Option TrainBatch → String → Action (Unit {0})
release_found none id q = (err (unknown_train_batch id), q)
release_found (some batch) id q =
    (ok tt, put_back batch.sample_refs (record q { reserved = erase id q.reserved }))

pub release_batch : String → Action (Unit {0})
unfolding put_back
release_batch id q = release_found (lookup id q.reserved) id q

pub record Stats : Type 0 where
  pub pending : ℕ
  pub reserved_batches : ℕ
  pub reserved_samples : ℕ
  pub acked : ℕ
  pub dropped : ℕ
  pub seen : ℕ

abbrev pub sequences_of : String × TrainBatch → ℕ
sequences_of (id, batch) = batch.num_sequences

unfoldable pub stats : SampleQueue → Stats
stats q = record {
  pending = length q.pending;
  reserved_batches = length q.reserved;
  reserved_samples = sum (map sequences_of q.reserved);
  acked = length q.acked;
  dropped = length q.dropped;
  seen = length q.seen;
}

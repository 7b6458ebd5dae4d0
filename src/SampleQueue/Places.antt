-- ===== src/SampleQueue/Places.antt =====
-- Where a sample of nano_rl/runtime/sample_queue.py is: pending, in a reserved batch, acked or dropped.
use nano_rl.Prelude.{ℕ, ◌+◌, String, ◌≡◌, true, false, some, map, arith, one}
use nano_rl.Prelude.Equality.{string_eq, contains, add, contains-add, count}
use nano_rl.Prelude.Dict.{
  Dict, lookup, has, insert, Distinct, lookup-insert, lookup-erase, has-insert, has-erase,
  insert-Distinct, erase-Distinct, lookup-nil, total,
}
use nano_rl.Protocols.{SampleRef, TrainBatch}
use nano_rl.SampleQueue.{SampleQueue, create, id_of, drop, discard}

-- How often a sample stands in the batches.
abbrev pub in_batch : String → TrainBatch → ℕ
in_batch s batch = count s batch.sample_ids

abbrev pub reserved_count : String → Dict String TrainBatch → ℕ
reserved_count s d = total (in_batch s) d

-- In how many places a sample is.
abbrev pub places : String → SampleQueue → ℕ
places s q =
    one (has s q.pending)
    + reserved_count s q.reserved
    + one (contains s q.acked)
    + one (has s q.dropped)

-- Every sample that was seen is in exactly one place, and no other is in any.
pub record IsConsistent (q : SampleQueue) : Type 0 where
  pub once : (s : String) → places s q ≡ one (contains s q.seen)
  pub keyed : (s : String) (ref : SampleRef) → lookup s q.pending ≡ some ref → ref.sample_id ≡ s
  pub listed :
      (id : String) (batch : TrainBatch)
      → lookup id q.reserved ≡ some batch
      → batch.sample_ids ≡ map id_of batch.sample_refs
  pub pending_distinct : Distinct q.pending
  pub reserved_distinct : Distinct q.reserved

pub create-IsConsistent : (lag ttl mark : ℕ) → IsConsistent (create lag ttl mark)
unfolding create total
create-IsConsistent lag ttl mark = record {
  once = λ s. ground (arith, lookup-nil {V = SampleRef} s, lookup-nil {V = String} s);
  keyed = λ s ref h. absurd (ground (arith, lookup-nil {V = SampleRef} s));
  listed = λ id batch h. absurd (ground (arith, lookup-nil {V = TrainBatch} id));
  pending_distinct = tt;
  reserved_distinct = tt;
}

-- A sample that was never seen may be dropped.
pub drop-IsConsistent :
    (id reason : String) (q : SampleQueue)
    → contains id q.seen ≡ false
    → IsConsistent q
    → IsConsistent (drop id reason q)
drop-IsConsistent id reason q new v = record {
  once = λ s. ground (
    arith,
    v.once s,
    has-insert s id reason q.dropped,
    contains-add s id q.seen,
    string_eq.test_iff id s,
  );
  keyed = v.keyed;
  listed = v.listed;
  pending_distinct = v.pending_distinct;
  reserved_distinct = v.reserved_distinct;
}

-- A pending sample may be dropped.
pub discard-IsConsistent :
    (id reason : String) (q : SampleQueue)
    → has id q.pending ≡ true
    → IsConsistent q
    → IsConsistent (discard id reason q)
discard-IsConsistent id reason q old v = record {
  once = λ s. ground (
    arith,
    v.once s,
    has-insert s id reason q.dropped,
    contains-add s id q.seen,
    has-erase s id q.pending,
    string_eq.test_iff id s,
  );
  keyed = λ s ref h. v.keyed s ref (ground (arith, lookup-erase s id q.pending));
  listed = v.listed;
  pending_distinct = erase-Distinct id q.pending v.pending_distinct;
  reserved_distinct = v.reserved_distinct;
}

-- A sample that was never seen may become pending under its id.
pub admit-IsConsistent :
    (ref : SampleRef) (q : SampleQueue)
    → contains ref.sample_id q.seen ≡ false
    → IsConsistent q
    → IsConsistent
        (record q { pending = insert ref.sample_id ref q.pending; seen = add ref.sample_id q.seen })
admit-IsConsistent ref q new v = record {
  once = λ s. ground (
    arith,
    v.once s,
    has-insert s ref.sample_id ref q.pending,
    contains-add s ref.sample_id q.seen,
    string_eq.test_iff ref.sample_id s,
  );
  keyed = λ s other h. ground (
    arith,
    v.keyed s other,
    lookup-insert s ref.sample_id ref q.pending,
    string_eq.test_iff ref.sample_id s,
  );
  listed = v.listed;
  pending_distinct = insert-Distinct ref.sample_id ref q.pending v.pending_distinct;
  reserved_distinct = v.reserved_distinct;
}

-- ===== src/SampleQueue/Reserving.antt =====
-- Samples move between the pending ones and the batches of nano_rl/runtime/sample_queue.py.
use nano_rl.Prelude.{
  String, ◌≡◌, refl, ap, true, false, none, some, List, [], ◌∷◌, map, arith, one, if◌then◌else◌,
  All,
}
use nano_rl.Prelude.Equality.{
  string_eq, contains, add, contains-add, count, count-pos, count-zero, count-Unique, Unique,
}
use nano_rl.Prelude.Dict.{
  Dict, lookup, has, insert, erase, Distinct, lookup-insert, lookup-erase, has-erase,
  insert-Distinct, erase-Distinct, total-insert_new, total-erase,
}
use nano_rl.Protocols.{SampleRef, TrainBatch}
use nano_rl.SampleQueue.{SampleQueue, id_of, pop_all, add_all}
use nano_rl.SampleQueue.Places.{in_batch, IsConsistent}

abbrev pub ids : List SampleRef → List String
ids refs = map id_of refs

-- The reference stands among the pending ones, under its own id.
abbrev pub IsPending : SampleQueue → SampleRef → Type 0
IsPending q ref = lookup ref.sample_id q.pending ≡ some ref

pub has-pop_all :
    (s : String) (refs : List SampleRef) (d : Dict String SampleRef)
    → has s (pop_all refs d) ≡ (if contains s (ids refs) then false else has s d)
unfolding pop_all
has-pop_all s [] d = refl
has-pop_all s (ref ∷ refs) d =
    ground (arith, has-pop_all s refs (erase ref.sample_id d), has-erase s ref.sample_id d)

pub lookup-pop_all :
    (s : String) (refs : List SampleRef) (d : Dict String SampleRef)
    → lookup s (pop_all refs d) ≡ (if contains s (ids refs) then none else lookup s d)
unfolding pop_all
lookup-pop_all s [] d = refl
lookup-pop_all s (ref ∷ refs) d =
    ground (arith, lookup-pop_all s refs (erase ref.sample_id d), lookup-erase s ref.sample_id d)

pub lookup_of_pop_all :
    (s : String) (r : SampleRef) (refs : List SampleRef) (d : Dict String SampleRef)
    → lookup s (pop_all refs d) ≡ some r
    → lookup s d ≡ some r
lookup_of_pop_all s r refs d h = ground (arith, lookup-pop_all s refs d)

pub pop_all-Distinct :
    (refs : List SampleRef) (d : Dict String SampleRef) → Distinct d → Distinct (pop_all refs d)
unfolding pop_all
pop_all-Distinct [] d u = u
pop_all-Distinct (ref ∷ refs) d u =
    pop_all-Distinct refs (erase ref.sample_id d) (erase-Distinct ref.sample_id d u)

pub pending_of_contains :
    (s : String) (q : SampleQueue) (refs : List SampleRef)
    → All (IsPending q) refs
    → contains s (ids refs) ≡ true
    → has s q.pending ≡ true
pending_of_contains s q [] h c = cc
pending_of_contains s q (ref ∷ refs) h c =
    ground (arith, pending_of_contains s q refs h.1, string_eq.test_iff ref.sample_id s, h.0)

-- Pending samples may be moved into a new batch.
pub move-IsConsistent :
    (q : SampleQueue) (refs : List SampleRef) (id : String) (batch : TrainBatch)
    → IsConsistent q
    → All (IsPending q) refs
    → Unique (ids refs)
    → has id q.reserved ≡ false
    → batch.sample_ids ≡ ids refs
    → batch.sample_refs ≡ refs
    → IsConsistent
        (record q { pending = pop_all refs q.pending; reserved = insert id batch q.reserved })
move-IsConsistent q refs id batch v in_queue unique fresh same_ids same_refs = record {
  once = λ s. ground (
    arith,
    v.once s,
    total-insert_new (in_batch s) id batch q.reserved fresh,
    has-pop_all s refs q.pending,
    pending_of_contains s q refs in_queue,
    count-Unique s (ids refs) unique,
    ap (count s) same_ids,
  );
  keyed = λ s ref h. v.keyed s ref (lookup_of_pop_all s ref refs q.pending h);
  listed = λ k b h. ground (
    arith,
    v.listed k b,
    lookup-insert k id batch q.reserved,
    same_ids,
    same_refs,
    ap ids same_refs,
  );
  pending_distinct = pop_all-Distinct refs q.pending v.pending_distinct;
  reserved_distinct = insert-Distinct id batch q.reserved v.reserved_distinct;
}

pub contains-add_all :
    (s : String) (xs ys : List String)
    → contains s (add_all xs ys) ≡ (if contains s xs then true else contains s ys)
unfolding add_all
contains-add_all s [] ys = refl
contains-add_all s (x ∷ xs) ys =
    ground (arith, contains-add_all s xs (add x ys), contains-add s x ys)

-- A sample of a reserved batch is in no other place, and stands in the batch once.
pub reserved_once :
    (s id : String) (batch : TrainBatch) (q : SampleQueue)
    → IsConsistent q
    → lookup id q.reserved ≡ some batch
    → (count s batch.sample_ids ≡ one (contains s batch.sample_ids))
      × (contains s batch.sample_ids ≡ true
          → (has s q.pending ≡ false) × (contains s q.acked ≡ false) × (has s q.dropped ≡ false))
reserved_once s id batch q v e = (
  ground (
    arith,
    v.once s,
    total-erase (in_batch s) id batch q.reserved v.reserved_distinct e,
    count-pos s batch.sample_ids,
    count-zero s batch.sample_ids,
  ),
  λ c. ground (
    arith,
    v.once s,
    total-erase (in_batch s) id batch q.reserved v.reserved_distinct e,
    count-pos s batch.sample_ids c,
  ),
)

-- The samples of a reserved batch may become acknowledged.
pub ack-IsConsistent :
    (id : String) (batch : TrainBatch) (q : SampleQueue)
    → IsConsistent q
    → lookup id q.reserved ≡ some batch
    → IsConsistent
        (record q { reserved = erase id q.reserved; acked = add_all batch.sample_ids q.acked })
ack-IsConsistent id batch q v e = record {
  once = λ s.
      let (counted, nowhere_else) = reserved_once s id batch q v e in
      ground (
        arith,
        v.once s,
        total-erase (in_batch s) id batch q.reserved v.reserved_distinct e,
        contains-add_all s batch.sample_ids q.acked,
        counted,
        nowhere_else,
      );
  keyed = v.keyed;
  listed = λ k b h. v.listed k b (ground (arith, lookup-erase k id q.reserved));
  pending_distinct = v.pending_distinct;
  reserved_distinct = erase-Distinct id q.reserved v.reserved_distinct;
}

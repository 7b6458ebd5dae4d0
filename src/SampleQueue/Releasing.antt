-- ===== src/SampleQueue/Releasing.antt =====
-- `release_batch` of nano_rl/runtime/sample_queue.py puts every sample of the batch back.
use nano_rl.Prelude.{
  String, ◌≡◌, refl, ap, ◌∙◌, true, false, some, List, [], ◌∷◌, arith, if◌then◌else◌, All,
}
use nano_rl.Prelude.Exec.{err}
use nano_rl.Prelude.Equality.{string_eq, contains}
use nano_rl.Prelude.Dict.{
  Dict, lookup, has, insert, erase, Distinct, lookup-insert, lookup-erase, has-insert,
  insert-Distinct, erase-Distinct, total-erase,
}
use nano_rl.Protocols.{SampleRef, TrainBatch}
use nano_rl.SampleQueue.{ack_batch, QueueError, SampleQueue, put_back}
use nano_rl.SampleQueue.Places.{in_batch, IsConsistent}
use nano_rl.SampleQueue.Reserving.{ids, reserved_once}

pub insert_all : List SampleRef → Dict String SampleRef → Dict String SampleRef
insert_all [] d = d
insert_all (ref ∷ refs) d = insert_all refs (insert ref.sample_id ref d)

pub has-insert_all :
    (s : String) (refs : List SampleRef) (d : Dict String SampleRef)
    → has s (insert_all refs d) ≡ (if contains s (ids refs) then true else has s d)
unfolding insert_all
has-insert_all s [] d = refl
has-insert_all s (ref ∷ refs) d =
    ground
      (arith, has-insert_all s refs (insert ref.sample_id ref d), has-insert s ref.sample_id ref d)

pub lookup-insert_all :
    (s : String) (refs : List SampleRef) (before d : Dict String SampleRef)
    → All (λ r. lookup r.sample_id before ≡ some r) refs
    → lookup s (insert_all refs d) ≡ (if contains s (ids refs) then lookup s before else lookup s d)
unfolding insert_all
lookup-insert_all s [] before d h = refl
lookup-insert_all s (ref ∷ refs) before d h = ground (
  arith,
  lookup-insert_all s refs before (insert ref.sample_id ref d) h.1,
  h.0,
  lookup-insert s ref.sample_id ref d,
  string_eq.test_iff ref.sample_id s,
)

insert_all-keyed :
    (refs : List SampleRef) (d : Dict String SampleRef)
    → ((s : String) (r : SampleRef) → lookup s d ≡ some r → r.sample_id ≡ s)
    → (s : String) (r : SampleRef) → lookup s (insert_all refs d) ≡ some r
    → r.sample_id ≡ s
unfolding insert_all
insert_all-keyed [] d k s r h = k s r h
insert_all-keyed (ref ∷ refs) d k s r h =
    insert_all-keyed refs (insert ref.sample_id ref d)
      (λ t u e.
        ground
          (arith, k t u, lookup-insert t ref.sample_id ref d, string_eq.test_iff ref.sample_id t))
      s r h

insert_all-Distinct :
    (refs : List SampleRef) (d : Dict String SampleRef) → Distinct d → Distinct (insert_all refs d)
unfolding insert_all
insert_all-Distinct [] d u = u
insert_all-Distinct (ref ∷ refs) d u =
    insert_all-Distinct refs (insert ref.sample_id ref d) (insert-Distinct ref.sample_id ref d u)

-- Neither acknowledged nor dropped.
abbrev IsOpen : SampleQueue → String → Type 0
IsOpen q s = (contains s q.acked ≡ false) × (has s q.dropped ≡ false)

put_back-open :
    (refs : List SampleRef) (q : SampleQueue)
    → All (λ r. IsOpen q r.sample_id) refs
    → put_back refs q ≡ record q { pending = insert_all refs q.pending }
unfolding put_back insert_all
put_back-open [] q h = refl
put_back-open (ref ∷ refs) q h =
    rw (h.0.0, h.0.1)
      (put_back-open refs (record q { pending = insert ref.sample_id ref q.pending }) h.1)

All-ids :
    (P : String → Type 0) (refs : List SampleRef)
    → ((s : String) → contains s (ids refs) ≡ true → P s)
    → All (λ r. P r.sample_id) refs
All-ids P [] h = tt
All-ids P (ref ∷ refs) h = (
  h ref.sample_id (ground (arith, string_eq.test_iff ref.sample_id ref.sample_id)),
  All-ids P refs (λ s c. h s (ground arith)),
)

-- Every sample of the batch is put back, since none of them was acknowledged or dropped.
pub put_back-reserved :
    (id : String) (batch : TrainBatch) (q : SampleQueue)
    → IsConsistent q
    → lookup id q.reserved ≡ some batch
    → put_back batch.sample_refs (record q { reserved = erase id q.reserved }) ≡ record q {
      pending = insert_all batch.sample_refs q.pending;
      reserved = erase id q.reserved;
    }
put_back-reserved id batch q v e =
    put_back-open batch.sample_refs (record q { reserved = erase id q.reserved })
      (All-ids (IsOpen q) batch.sample_refs λ s c.
        let (_, nowhere_else) = reserved_once s id batch q v e in
        let f = nowhere_else (ap (contains s) (v.listed id batch e) ∙ c) in (f.1, f.2))

pub release-IsConsistent :
    (id : String) (batch : TrainBatch) (q : SampleQueue)
    → IsConsistent q
    → lookup id q.reserved ≡ some batch
    → IsConsistent (put_back batch.sample_refs (record q { reserved = erase id q.reserved }))
release-IsConsistent id batch q v e = rw (put_back-reserved id batch q v e) (record {
  once = λ s.
      let (counted, nowhere_else) = reserved_once s id batch q v e in
      ground (
        arith,
        v.once s,
        total-erase (in_batch s) id batch q.reserved v.reserved_distinct e,
        has-insert_all s batch.sample_refs q.pending,
        counted,
        nowhere_else,
        ap (contains s) (v.listed id batch e),
      );
  keyed = insert_all-keyed batch.sample_refs q.pending v.keyed;
  listed = λ k b h. v.listed k b (ground (arith, lookup-erase k id q.reserved));
  pending_distinct = insert_all-Distinct batch.sample_refs q.pending v.pending_distinct;
  reserved_distinct = erase-Distinct id q.reserved v.reserved_distinct;
})

-- A refusal changes nothing.
pub ack_batch_refused :
    (id : String) (q : SampleQueue) (e : QueueError)
    → (ack_batch id q).0 ≡ err e
    → (ack_batch id q).1 ≡ q
unfolding ack_batch
ack_batch_refused id q e h = ground (arith, h)

-- ===== src/SampleQueue/Lifetimes.antt =====
-- What stays true of a sample of nano_rl/runtime/sample_queue.py whatever is called later.
use nano_rl.Prelude.{
  ℕ, String, ◌≡◌, refl, true, false, Option, List, [], ◌∷◌, arith, inl, inr, Option-cases,
}
use nano_rl.Prelude.Equality.{string_eq, contains, contains-add}
use nano_rl.Prelude.Dict.{lookup, has, insert, erase}
use nano_rl.Protocols.{SampleRecord, SampleRef}
use nano_rl.SampleQueue.{
  SampleQueue, Request, create, duplicate, submit_sample, select, reserve_selected,
  reserve_train_batch, ack_batch, release_batch, put_back,
}
use nano_rl.SampleQueue.Places.{create-IsConsistent, reserved_count}
use nano_rl.SampleQueue.Loop.{KeepsRound, select_rule}
use nano_rl.SampleQueue.Reserving.{contains-add_all}
use nano_rl.SampleQueue.Histories.{
  Step, submits, reserves, acks, releases, Reach, here, later, Reach-IsConsistent,
}

-- The sample was seen, and if it was acknowledged before, it still is.
record Remembers (s : String) (q r : SampleQueue) : Type 0 where
  seen : contains s q.seen ≡ true → contains s r.seen ≡ true
  acked : contains s q.acked ≡ true → contains s r.acked ≡ true

Remembers-refl : (s : String) (q : SampleQueue) → Remembers s q q
Remembers-refl s q = record { seen = λ h. h; acked = λ h. h }

submit-Remembers :
    (s : String) (r : SampleRecord) (version : ℕ) (object_ref : Option ℕ) (now : ℕ)
    (q : SampleQueue)
    → Remembers s q (submit_sample r version object_ref now q).1
unfolding submit_sample
submit-Remembers s r version object_ref now q = record {
  seen = λ h. ground (arith, contains-add s r.sample_id q.seen);
  acked = λ h. ground arith;
}

select-Remembers :
    (s : String) (a : Request) (before : SampleQueue)
    → KeepsRound a (λ rest q selected tokens. Remembers s before q)
select-Remembers s a before = record {
  on_discard = λ reason k ref rest q selected tokens d v. record {
    seen = λ h. ground (arith, v.seen h, contains-add s k q.seen);
    acked = v.acked;
  };
  on_stop = λ k ref rest q selected tokens d v. v;
  on_take = λ k ref rest q selected tokens e v. v;
}

reserve_selected-Remembers :
    (s : String) (a : Request) (hex : String) (selected : List SampleRef) (before q : SampleQueue)
    → Remembers s before q
    → Remembers s before (reserve_selected a hex selected q).1
unfolding reserve_selected
reserve_selected-Remembers s a hex [] before q v = v
reserve_selected-Remembers s a hex (ref ∷ refs) before q v = record {
  seen = v.seen;
  acked = v.acked;
}

reserve-Remembers :
    (s : String) (a : Request) (hex : String) (q : SampleQueue)
    → Remembers s q (reserve_train_batch a hex q).1
unfolding reserve_train_batch
reserve-Remembers s a hex q =
    reserve_selected-Remembers s a hex (select a q.pending q [] 0).1 q (select a q.pending q [] 0).0
      (select_rule a _ (select-Remembers s a q) q.pending q [] 0 (Remembers-refl s q)).1

ack-Remembers : (s id : String) (q : SampleQueue) → Remembers s q (ack_batch id q).1
unfolding ack_batch
ack-Remembers s id q = elim (Option-cases (lookup id q.reserved)) [
  | inl e ↦ rw e (Remembers-refl s q)
  | inr (batch, e) ↦ rw e (record {
    seen = λ h. h;
    acked = λ h. ground (arith, contains-add_all s batch.sample_ids q.acked);
  })
]

put_back-same :
    (refs : List SampleRef) (q : SampleQueue)
    → ((put_back refs q).seen ≡ q.seen) × ((put_back refs q).acked ≡ q.acked)
unfolding put_back
put_back-same [] q = (refl, refl)
put_back-same (ref ∷ refs) q = ground (
  arith,
  put_back-same refs q,
  put_back-same refs (record q { pending = insert ref.sample_id ref q.pending }),
)

release-Remembers : (s id : String) (q : SampleQueue) → Remembers s q (release_batch id q).1
unfolding release_batch
release-Remembers s id q = elim (Option-cases (lookup id q.reserved)) [
  | inl e ↦ rw e (Remembers-refl s q)
  | inr (batch, e) ↦
      let (seen, acked) =
        put_back-same batch.sample_refs (record q { reserved = erase id q.reserved }) in
      rw e (record { seen = λ h. rw seen h; acked = λ h. rw acked h })
]

Step-Remembers : (s : String) {q r : SampleQueue} → Step q r → Remembers s q r
Step-Remembers s (submits r version object_ref now q) =
    submit-Remembers s r version object_ref now q
Step-Remembers s (reserves a hex q fresh) = reserve-Remembers s a hex q
Step-Remembers s (acks id q) = ack-Remembers s id q
Step-Remembers s (releases id q) = release-Remembers s id q

Reach-Remembers : (s : String) {q r : SampleQueue} → Reach q r → Remembers s q r
Reach-Remembers s {q} here = Remembers-refl s q
Reach-Remembers s (later h st) =
    let v = Reach-Remembers s h in
    let w = Step-Remembers s st in
    record { seen = λ x. w.seen (v.seen x); acked = λ x. w.acked (v.acked x) }

-- Once a sample was seen, whatever is called in between, a record with its id is a duplicate and
-- changes nothing.
pub resubmit_duplicate :
    (q r : SampleQueue) (s : SampleRecord) (version : ℕ) (object_ref : Option ℕ) (now : ℕ)
    → contains s.sample_id q.seen ≡ true
    → Reach q r
    → submit_sample s version object_ref now r ≡ (duplicate, r)
unfolding submit_sample
resubmit_duplicate q r s version object_ref now h path =
    rw ((Reach-Remembers s.sample_id path).seen h) refl

-- A sample is acknowledged at most once: from then on it is neither pending nor in a reserved batch,
-- whatever is called.
pub acked_for_good :
    (max_lag ttl mark : ℕ) (q r : SampleQueue) (s : String)
    → Reach (create max_lag ttl mark) q
    → contains s q.acked ≡ true
    → Reach q r
    → (contains s r.acked ≡ true)
      × (has s r.pending ≡ false)
      × (reserved_count s r.reserved ≡ 0)
      × (has s r.dropped ≡ false)
acked_for_good max_lag ttl mark q r s start h path =
    let v =
      Reach-IsConsistent (Reach-IsConsistent (create-IsConsistent max_lag ttl mark) start) path in
    let kept = (Reach-Remembers s path).acked h in ground (arith, v.once s, kept)

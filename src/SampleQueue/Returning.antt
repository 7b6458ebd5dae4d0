-- ===== src/SampleQueue/Returning.antt =====
-- A reservation of nano_rl/runtime/sample_queue.py followed by the release of its batch.
use nano_rl.Prelude.{String, ◌≡◌, refl, ap, false, Option, none, some, List, [], ◌∷◌, arith}
use Prim.Native.String.{◌++◌ as str_append}
use nano_rl.Prelude.Equality.{string_eq}
use nano_rl.Prelude.Exec.{ok}
use nano_rl.Prelude.Dict.{
  lookup, has, insert, erase, lookup-insert, lookup-insert_self, lookup-erase,
}
use nano_rl.Protocols.{SampleRef, TrainBatch}
use nano_rl.SampleQueue.{
  SampleQueue, Request, select, reserve_selected, reserve_train_batch, release_batch, pop_all,
  batch_of,
}
use nano_rl.SampleQueue.Places.{IsConsistent}
use nano_rl.SampleQueue.Reserving.{lookup-pop_all}
use nano_rl.SampleQueue.Releasing.{insert_all, lookup-insert_all, put_back-reserved}
use nano_rl.SampleQueue.Histories.{reserve_selected-IsConsistent}
use nano_rl.SampleQueue.Selecting.{LoopInv, select-LoopInv}

-- The queue is as it was before the reservation, but for what the reservation dropped.
pub record IsRestored (before after : SampleQueue) : Type 0 where
  pub pending :
      (s : String) → has s after.dropped ≡ false → lookup s after.pending ≡ lookup s before.pending
  pub reserved : (id : String) → lookup id after.reserved ≡ lookup id before.reserved

module _ (a : Request) (hex : String) (ref : SampleRef) (refs : List SampleRef)
    (before q : SampleQueue) (v : LoopInv a before [] q (ref ∷ refs))
    (fresh : has (str_append "train-" hex) before.reserved ≡ false) where
  taken : SampleQueue
  taken = (reserve_selected a hex (ref ∷ refs) q).1

  id : String
  id = str_append "train-" hex

  restored_pending :
      (s : String)
      → has s q.dropped ≡ false
      → lookup s (insert_all (ref ∷ refs) (pop_all (ref ∷ refs) q.pending))
        ≡ lookup s before.pending
  restored_pending s h = ground (
    arith,
    lookup-insert_all s (ref ∷ refs) q.pending (pop_all (ref ∷ refs) q.pending) v.selected_pending,
    lookup-pop_all s (ref ∷ refs) q.pending,
    v.kept s h,
  )

  restored_reserved :
      (k : String)
      → lookup k (erase id (insert id (batch_of a hex ref refs) q.reserved))
        ≡ lookup k before.reserved
  unfolding id
  restored_reserved k = ground (
    arith,
    lookup-erase k id (insert id (batch_of a hex ref refs) q.reserved),
    lookup-insert k id (batch_of a hex ref refs) q.reserved,
    v.same_reserved,
    ap (lookup k) v.same_reserved,
    fresh,
    string_eq.test_iff id k,
  )

  release_selected :
      ((release_batch id taken).0 ≡ ok tt) × IsRestored before (release_batch id taken).1
  unfolding release_batch taken id reserve_selected
  release_selected =
      let found = lookup-insert_self id (batch_of a hex ref refs) q.reserved in
      rw
        (
          found,
          put_back-reserved id (batch_of a hex ref refs) taken
              (reserve_selected-IsConsistent a hex (ref ∷ refs) before q v fresh) found,
        )
        (refl, record { pending = restored_pending; reserved = restored_reserved })

-- The reservation is undone: by releasing its batch, or, if there is none, by doing nothing.
abbrev pub Undone : SampleQueue → Option TrainBatch × SampleQueue → Type 0
Undone before (none, after) = IsRestored before after
Undone before (some batch, after) =
    ((release_batch batch.train_batch_id after).0 ≡ ok tt)
    × IsRestored before (release_batch batch.train_batch_id after).1

undo_selected :
    (a : Request) (hex : String) (selected : List SampleRef) (before q : SampleQueue)
    → LoopInv a before [] q selected
    → has (str_append "train-" hex) before.reserved ≡ false
    → Undone before (reserve_selected a hex selected q)
unfolding reserve_selected id
undo_selected a hex [] before q v fresh = record {
  pending = v.kept;
  reserved = λ k. ap (lookup k) v.same_reserved;
}
undo_selected a hex (ref ∷ refs) before q v fresh =
    unfold taken batch_of in release_selected a hex ref refs before q v fresh

-- Taking a batch, under an id that is not in use, and giving it back restores the batches and every
-- sample that was not dropped on the way; so does a reservation that finds nothing.
pub release_undoes_reserve :
    (a : Request) (hex : String) (q : SampleQueue)
    → IsConsistent q
    → has (str_append "train-" hex) q.reserved ≡ false
    → Undone q (reserve_train_batch a hex q)
unfolding reserve_train_batch
release_undoes_reserve a hex q v fresh =
    undo_selected a hex (select a q.pending q [] 0).1 q (select a q.pending q [] 0).0
      (select-LoopInv a q v) fresh

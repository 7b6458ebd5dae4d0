-- ===== src/SampleQueue/Batches.antt =====
-- What a reservation of nano_rl/runtime/sample_queue.py hands out, and when there is one.
use mathlib.Core.Path.{subst}
use nano_rl.Prelude.{
  ℕ, ◌+◌, ◌≤◌, String, ◌≡◌, ◌≢◌, refl, sym, Bool-cases, ◌∙◌, ◌⊎◌, inl, inr, true, false, Option,
  none, some, List, [], ◌∷◌, map, arith, All, All-map, length, length-append,
}
use nano_rl.Prelude.Equality.{◌==◌, nat_eq, string_eq, contains, count, Unique}
use nano_rl.Prelude.Dict.{Dict, lookup, has, insert, lookup-insert, lookup-insert_self}
use nano_rl.Protocols.{SampleRef, TrainBatch}
use nano_rl.SampleQueue.{
  SampleQueue, Request, stop, judge, select, tally, count_or_zero, min_of, max_of, version_of,
  batch_of, reserve_selected, reserve_train_batch,
}
use nano_rl.SampleQueue.Places.{IsConsistent}
use nano_rl.SampleQueue.Loop.{KeepsRound, select_rule, Discards}
use nano_rl.SampleQueue.Reserving.{has-pop_all}
use nano_rl.SampleQueue.Selecting.{IsUsable, LoopInv, select-LoopInv}
use nano_rl.SampleQueue.Budget.{Fits, Bounded, select-Bounded}

-- The histogram counts each version.
tally-count :
    (v : ℕ) (vs : List ℕ) (h : Dict ℕ ℕ)
    → count_or_zero (lookup v (tally vs h)) ≡ count_or_zero (lookup v h) + count v vs
unfolding tally count
tally-count v [] h = omega arith
tally-count v (w ∷ ws) h = ground (
  arith,
  tally-count v ws (insert w (count_or_zero (lookup w h) + 1) h),
  lookup-insert v w (count_or_zero (lookup w h) + 1) h,
  nat_eq.test_iff w v,
)

abbrev InRange : ℕ → ℕ → SampleRef → Type 0
InRange low high r = (low ≤ r.policy_version) × (r.policy_version ≤ high)

ranged :
    (v : ℕ) (refs : List SampleRef)
    → (min_of v (map version_of refs) ≤ v)
      × (v ≤ max_of v (map version_of refs))
      × All (InRange (min_of v (map version_of refs)) (max_of v (map version_of refs))) refs
ranged v [] = (omega arith, omega arith, tt)
ranged v (r ∷ refs) =
    let (low, high, rest) = ranged r.policy_version refs in
    (
      omega arith,
      omega arith,
      ((omega arith, omega arith), All-map refs (λ x h. (omega arith, omega arith)) rest),
    )

-- What holds of a batch: its samples were pending and are not any more, each is still usable and stands
-- in it once, and the batch keeps to the request's limits.
pub record IsSound (a : Request) (before : SampleQueue) (batch : TrainBatch) (after : SampleQueue)
    : Type 0 where
  pub were_pending : All (λ r. lookup r.sample_id before.pending ≡ some r) batch.sample_refs
  pub taken : (s : String) → contains s batch.sample_ids ≡ true → has s after.pending ≡ false
  pub usable : All (IsUsable a before.max_policy_lag) batch.sample_refs
  pub unique : Unique batch.sample_ids
  pub not_empty : 1 ≤ batch.num_sequences
  pub few : batch.num_sequences ≤ a.max_sequences
  pub fits : Fits a.max_tokens batch.sample_refs
  pub in_range : All (InRange batch.policy_version_min batch.policy_version_max) batch.sample_refs
  pub tallied :
      (v : ℕ)
      → count_or_zero (lookup v batch.policy_version_histogram)
        ≡ count v (map version_of batch.sample_refs)
  pub reserved : lookup batch.train_batch_id after.reserved ≡ some batch

-- What `reserve_train_batch` leaves behind, by what it returns.
abbrev pub Outcome : Request → SampleQueue → Option TrainBatch × SampleQueue → Type 0
Outcome a before (none, after) =
    (after.reserved ≡ before.reserved)
    × ((s : String)
        → has s after.dropped ≡ false
        → lookup s after.pending ≡ lookup s before.pending)
Outcome a before (some batch, after) = IsSound a before batch after

selected-Outcome :
    (a : Request) (hex : String) (selected : List SampleRef) (before q : SampleQueue) (tokens : ℕ)
    → LoopInv a before [] q selected
    → Bounded a selected tokens
    → Outcome a before (reserve_selected a hex selected q)
unfolding reserve_selected batch_of lookup
selected-Outcome a hex [] before q tokens v b = (v.same_reserved, v.kept)
selected-Outcome a hex (ref ∷ refs) before q tokens v b =
    let (low, high, rest) = ranged ref.policy_version refs in
    record {
      were_pending = All-map (ref ∷ refs) (λ r h. v.origin r.sample_id r h) v.selected_pending;
      taken = λ s c. rw (has-pop_all s (ref ∷ refs) q.pending, c) refl;
      usable = v.usable;
      unique = v.selected_unique;
      not_empty = omega arith;
      few = b.few;
      fits = b.fits;
      in_range = ((low, high), rest);
      tallied = λ w. tally-count w (map version_of (ref ∷ refs)) [] ∙ omega arith;
      reserved = lookup-insert_self _ _ q.reserved;
    }

-- A reservation of a consistent queue hands out a sound batch; or it hands out nothing, and then every
-- sample that it has not dropped is pending as before.
pub reserve_sound :
    (a : Request) (hex : String) (q : SampleQueue)
    → IsConsistent q
    → Outcome a q (reserve_train_batch a hex q)
unfolding reserve_train_batch
reserve_sound a hex q v =
    let (tokens, b) = select-Bounded a q in
    selected-Outcome a hex (select a q.pending q [] 0).1 q (select a q.pending q [] 0).0 tokens
      (select-LoopInv a q v) b

-- Some entry may still be used.
abbrev AnyUsable : Request → ℕ → Dict String SampleRef → Type 0
AnyUsable a max_lag [] = ⊥
AnyUsable a max_lag ((k, ref) ∷ rest) = IsUsable a max_lag ref ⊎ AnyUsable a max_lag rest

record Hopeful (a : Request) (max_lag : ℕ) (rest : Dict String SampleRef) (q : SampleQueue)
    (selected : List SampleRef) : Type 0 where
  lag_same : q.max_policy_lag ≡ max_lag
  hope : (1 ≤ length selected) ⊎ AnyUsable a max_lag rest

discard_useless :
    (a : Request) (q : SampleQueue) (selected : List SampleRef) (tokens : ℕ) (ref : SampleRef)
    → Discards (judge a q selected tokens ref)
    → ¬ IsUsable a q.max_policy_lag ref
unfolding judge
discard_useless a q selected tokens ref (inl e) u = ground (arith, u.in_time, u.recent)
discard_useless a q selected tokens ref (inr e) u = ground (arith, u.in_time, u.recent)

stop_selected :
    (a : Request) (q : SampleQueue) (selected : List SampleRef) (tokens : ℕ) (ref : SampleRef)
    → 1 ≤ a.max_sequences
    → judge a q selected tokens ref ≡ stop
    → 1 ≤ length selected
unfolding judge
stop_selected a q [] tokens ref h e = absurd (ground arith)
stop_selected a q (x ∷ xs) tokens ref h e = omega arith

rounds-Hopeful :
    (a : Request) (max_lag : ℕ)
    → 1 ≤ a.max_sequences
    → KeepsRound a (λ rest q selected tokens. Hopeful a max_lag rest q selected)
rounds-Hopeful a max_lag h = record {
  on_discard = λ reason k ref rest q selected tokens d v. record {
    lag_same = v.lag_same;
    hope = elim (v.hope) [
      | inl found ↦ inl found
      | inr (inl good) ↦ absurd (
          discard_useless a q selected tokens ref d
            (subst (λ n. IsUsable a n ref) (sym v.lag_same) good))
      | inr (inr rest_good) ↦ inr rest_good
    ];
  };
  on_stop = λ k ref rest q selected tokens d v. record {
    lag_same = v.lag_same;
    hope = inl (stop_selected a q selected tokens ref h d);
  };
  on_take = λ k ref rest q selected tokens e v. record {
    lag_same = v.lag_same;
    hope = inl (omega (arith, length-append selected (ref ∷ [])));
  };
}

usable_entry :
    (a : Request) (max_lag : ℕ) (k : String) (ref : SampleRef) (d : Dict String SampleRef)
    → lookup k d ≡ some ref
    → IsUsable a max_lag ref
    → AnyUsable a max_lag d
unfolding lookup
usable_entry a max_lag k ref [] h u = cc
usable_entry a max_lag k ref ((j, other) ∷ d) h u = elim (Bool-cases (j == k)) [
  | inl same ↦ inl (subst (IsUsable a max_lag) (ground arith) u)
  | inr differs ↦ inr (usable_entry a max_lag k ref d (ground arith) u)
]

some_batch :
    (a : Request) (hex : String) (selected : List SampleRef) (q : SampleQueue)
    → 1 ≤ length selected
    → (reserve_selected a hex selected q).0 ≢ none
unfolding reserve_selected
some_batch a hex [] q h e = absurd (omega arith)
some_batch a hex (ref ∷ refs) q h e = cc

-- While some pending sample is neither expired nor too old, a request for at least one sequence gets a
-- batch.
pub reserve_serves :
    (a : Request) (hex : String) (q : SampleQueue) (k : String) (ref : SampleRef)
    → 1 ≤ a.max_sequences
    → lookup k q.pending ≡ some ref
    → IsUsable a q.max_policy_lag ref
    → (reserve_train_batch a hex q).0 ≢ none
unfolding reserve_train_batch
reserve_serves a hex q k ref h found good =
    some_batch a hex (select a q.pending q [] 0).1 (select a q.pending q [] 0).0 (
      at_end
        (select_rule a _ (rounds-Hopeful a q.max_policy_lag h) q.pending q [] 0 (record {
          lag_same = refl;
          hope = inr (usable_entry a q.max_policy_lag k ref q.pending found good);
        })).1)
  where
    at_end :
        {r : SampleQueue} {selected : List SampleRef}
        → Hopeful a q.max_policy_lag [] r selected
        → 1 ≤ length selected
    at_end v = elim (v.hope) [ inl found ↦ found | inr none_left ↦ absurd none_left ]

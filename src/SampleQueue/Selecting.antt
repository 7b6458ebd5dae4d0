-- ===== src/SampleQueue/Selecting.antt =====
-- The selection loop of `reserve_train_batch` in nano_rl/runtime/sample_queue.py.
use mathlib.Core.List.{map-append}
use mathlib.Core.Path.{subst}
use nano_rl.Prelude.{
  ℕ, ◌+◌, ◌≤◌, String, ◌≡◌, refl, false, some, List, [], ◌∷◌, ◌++◌, arith, All, All-append, All-map,
  All-map₂,
}
use nano_rl.Prelude.Equality.{◌==◌, string_eq, contains, Unique, Unique-snoc}
use nano_rl.Prelude.Dict.{Dict, lookup, has, Distinct, lookup-erase, has-insert}
use nano_rl.Protocols.{SampleRef}
use nano_rl.SampleQueue.{SampleQueue, Request, take, judge, select, discard, expired}
use nano_rl.SampleQueue.Loop.{KeepsRound, select_rule}
use nano_rl.SampleQueue.Places.{IsConsistent, discard-IsConsistent}
use nano_rl.SampleQueue.Reserving.{ids, IsPending}

-- What the trainer may still use: neither expired nor too old.
pub record IsUsable (a : Request) (max_policy_lag : ℕ) (ref : SampleRef) : Type 0 where
  pub in_time : expired ref.expires_at a.now ≡ false
  pub recent : a.current_policy_version ≤ max_policy_lag + ref.policy_version

-- What holds between the rounds of the loop, with `rest` still to go.
pub record LoopInv (a : Request) (before : SampleQueue) (rest : Dict String SampleRef)
    (q : SampleQueue) (selected : List SampleRef) : Type 0 where
  pub consistent : IsConsistent q
  pub same_lag : q.max_policy_lag ≡ before.max_policy_lag
  pub same_reserved : q.reserved ≡ before.reserved
  pub same_acked : q.acked ≡ before.acked
  pub origin :
      (s : String) (r : SampleRef) → lookup s q.pending ≡ some r → lookup s before.pending ≡ some r
  pub kept : (s : String) → has s q.dropped ≡ false → lookup s q.pending ≡ lookup s before.pending
  pub rest_pending : All (λ e. lookup e.0 q.pending ≡ some e.1) rest
  pub rest_distinct : Distinct rest
  pub selected_pending : All (IsPending q) selected
  pub selected_unique : Unique (ids selected)
  pub apart : All (λ r. has r.sample_id rest ≡ false) selected
  pub usable : All (IsUsable a before.max_policy_lag) selected

Apart : String → Dict String SampleRef → SampleRef → Type 0
Apart k rest r = ((k == r.sample_id) ≡ false) × (has r.sample_id rest ≡ false)

has-cons :
    (s k : String) (ref : SampleRef) (rest : Dict String SampleRef)
    → has s ((k, ref) ∷ rest) ≡ false
    → ((k == s) ≡ false) × (has s rest ≡ false)
unfolding lookup
has-cons s k ref rest h = ground arith

-- No entry of the rest has the key.
All-ne :
    (k : String) (rest : Dict String SampleRef)
    → has k rest ≡ false
    → All (λ e. (k == e.0) ≡ false) rest
All-ne k [] h = tt
All-ne k ((j, ref) ∷ rest) h =
    let (ne, later) = has-cons k j ref rest h in
    (ground (arith, string_eq.test_iff j k, string_eq.test_iff k j), All-ne k rest later)

contains-ids-apart :
    (k : String) (selected : List SampleRef)
    → All (λ r. (k == r.sample_id) ≡ false) selected
    → contains k (ids selected) ≡ false
contains-ids-apart k [] h = refl
contains-ids-apart k (r ∷ rs) h = ground (
  arith,
  contains-ids-apart k rs h.1,
  h.0,
  string_eq.test_iff r.sample_id k,
  string_eq.test_iff k r.sample_id,
)

module _ (a : Request) (before : SampleQueue) (k : String) (ref : SampleRef)
    (rest : Dict String SampleRef) (q : SampleQueue) (selected : List SampleRef)
    (v : LoopInv a before ((k, ref) ∷ rest) q selected) where
  key : ref.sample_id ≡ k
  key = v.consistent.keyed k ref v.rest_pending.0

  ne_selected : All (λ r. (k == r.sample_id) ≡ false) selected
  ne_selected = All-map selected (λ r h. (has-cons r.sample_id k ref rest h).0) v.apart

  apart_rest : All (λ r. has r.sample_id rest ≡ false) selected
  apart_rest = All-map selected (λ r h. (has-cons r.sample_id k ref rest h).1) v.apart

  discard-LoopInv : (reason : String) → LoopInv a before rest (discard k reason q) selected
  discard-LoopInv reason = record {
    consistent = discard-IsConsistent k reason q (ground (arith, v.rest_pending.0)) v.consistent;
    same_lag = v.same_lag;
    same_reserved = v.same_reserved;
    same_acked = v.same_acked;
    origin = λ s r h. v.origin s r (ground (arith, lookup-erase s k q.pending));
    kept = λ s h.
        ground (arith, v.kept s, has-insert s k reason q.dropped, lookup-erase s k q.pending);
    rest_pending =
        All-map₂ rest (λ e ne h. ground (arith, lookup-erase e.0 k q.pending))
          (All-ne k rest v.rest_distinct.0) v.rest_pending.1;
    rest_distinct = v.rest_distinct.1;
    selected_pending =
        All-map₂ selected (λ r ne h. ground (arith, lookup-erase r.sample_id k q.pending))
          ne_selected v.selected_pending;
    selected_unique = v.selected_unique;
    apart = apart_rest;
    usable = v.usable;
  }

  take-LoopInv :
      IsUsable a before.max_policy_lag ref → LoopInv a before rest q (selected ++ (ref ∷ []))
  take-LoopInv good = record {
    consistent = v.consistent;
    same_lag = v.same_lag;
    same_reserved = v.same_reserved;
    same_acked = v.same_acked;
    origin = v.origin;
    kept = v.kept;
    rest_pending = v.rest_pending.1;
    rest_distinct = v.rest_distinct.1;
    selected_pending =
        All-append _ selected (ref ∷ []) v.selected_pending (simp key v.rest_pending.0, tt);
    selected_unique = rw map-append (
        Unique-snoc (ids selected) ref.sample_id v.selected_unique
          (rw key (contains-ids-apart k selected ne_selected)));
    apart = All-append _ selected (ref ∷ []) apart_rest (rw key v.rest_distinct.0, tt);
    usable = All-append _ selected (ref ∷ []) v.usable (good, tt);
  }

  stop-LoopInv : LoopInv a before [] q selected
  unfolding lookup
  stop-LoopInv = record {
    consistent = v.consistent;
    same_lag = v.same_lag;
    same_reserved = v.same_reserved;
    same_acked = v.same_acked;
    origin = v.origin;
    kept = v.kept;
    rest_pending = tt;
    rest_distinct = tt;
    selected_pending = v.selected_pending;
    selected_unique = v.selected_unique;
    apart = All-map selected (λ r h. refl) v.apart;
    usable = v.usable;
  }

judge-take :
    (a : Request) (q : SampleQueue) (selected : List SampleRef) (tokens : ℕ) (ref : SampleRef)
    → judge a q selected tokens ref ≡ take
    → IsUsable a q.max_policy_lag ref
unfolding judge
judge-take a q selected tokens ref h = record { in_time = ground arith; recent = ground arith }

-- Each entry of a dict without repeated keys is what the key finds.
All-found : (d : Dict String SampleRef) → Distinct d → All (λ e. lookup e.0 d ≡ some e.1) d
unfolding lookup
All-found [] u = tt
All-found ((k, ref) ∷ d) u = (
  ground (arith, string_eq.test_iff k k),
  All-map₂ d (λ e ne h. ground arith) (All-ne k d u.0) (All-found d u.1),
)

pub start-LoopInv : (a : Request) (q : SampleQueue) → IsConsistent q → LoopInv a q q.pending q []
start-LoopInv a q v = record {
  consistent = v;
  same_lag = refl;
  same_reserved = refl;
  same_acked = refl;
  origin = λ s r h. h;
  kept = λ s h. refl;
  rest_pending = All-found q.pending v.pending_distinct;
  rest_distinct = v.pending_distinct;
  selected_pending = tt;
  selected_unique = tt;
  apart = tt;
  usable = tt;
}

loop_keeps :
    (a : Request) (before : SampleQueue)
    → KeepsRound a (λ rest q selected tokens. LoopInv a before rest q selected)
loop_keeps a before = record {
  on_discard = λ reason k ref rest q selected tokens d v.
      discard-LoopInv a before k ref rest q selected v reason;
  on_stop = λ k ref rest q selected tokens d v. stop-LoopInv a before k ref rest q selected v;
  on_take = λ k ref rest q selected tokens e v.
      take-LoopInv a before k ref rest q selected v
        (subst (λ n. IsUsable a n ref) v.same_lag (judge-take a q selected tokens ref e));
}

-- The loop over all that is pending keeps its invariant to the end.
pub select-LoopInv :
    (a : Request) (q : SampleQueue)
    → IsConsistent q
    → LoopInv a q [] (select a q.pending q [] 0).0 (select a q.pending q [] 0).1
select-LoopInv a q v = (select_rule a _ (loop_keeps a q) q.pending q [] 0 (start-LoopInv a q v)).1

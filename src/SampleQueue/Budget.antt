-- ===== src/SampleQueue/Budget.antt =====
-- How much one reservation of nano_rl/runtime/sample_queue.py takes.
use mathlib.Core.List.{map-append}
use nano_rl.Prelude.{
  ℕ, ◌+◌, ◌≤◌, ◌≡◌, refl, Option, none, some, List, [], ◌∷◌, ◌++◌, map, arith, length,
  length-append, sum, sum-append, ◌⊎◌, inl, inr,
}
use nano_rl.Protocols.{SampleRef}
use nano_rl.SampleQueue.Loop.{KeepsRound, select_rule}
use nano_rl.SampleQueue.{SampleQueue, Request, take, judge, select, tokens_of}

-- One sample is always within the budget; more than one must fit.
abbrev pub Fits : Option ℕ → List SampleRef → Type 0
Fits none selected = Unit
Fits (some limit) selected = (length selected ≤ 1) ⊎ (sum (map tokens_of selected) ≤ limit)

pub record Bounded (a : Request) (selected : List SampleRef) (tokens : ℕ) : Type 0 where
  pub few : length selected ≤ a.max_sequences
  pub counted : tokens ≡ sum (map tokens_of selected)
  pub fits : Fits a.max_tokens selected

sum-snoc :
    (selected : List SampleRef) (ref : SampleRef)
    → sum (map tokens_of (selected ++ (ref ∷ []))) ≡ sum (map tokens_of selected) + ref.num_tokens
sum-snoc selected ref = rw (map-append, sum-append) (omega arith)

take-Fits :
    (limit : Option ℕ) (a : Request) (q : SampleQueue) (selected : List SampleRef) (tokens : ℕ)
    (ref : SampleRef)
    → a.max_tokens ≡ limit
    → tokens ≡ sum (map tokens_of selected)
    → judge a q selected tokens ref ≡ take
    → Fits limit (selected ++ (ref ∷ []))
unfolding judge
take-Fits none a q selected tokens ref e c h = tt
take-Fits (some limit) a q [] tokens ref e c h = inl (omega arith)
take-Fits (some limit) a q (x ∷ xs) tokens ref e c h =
    inr (rw (sum-snoc (x ∷ xs) ref, ← c) (ground arith))

take-Bounded :
    (a : Request) (q : SampleQueue) (selected : List SampleRef) (tokens : ℕ) (ref : SampleRef)
    → Bounded a selected tokens
    → judge a q selected tokens ref ≡ take
    → Bounded a (selected ++ (ref ∷ [])) (tokens + ref.num_tokens)
unfolding judge
take-Bounded a q selected tokens ref v h = record {
  few = ground (arith, length-append selected (ref ∷ []));
  counted = omega (arith, v.counted, sum-snoc selected ref);
  fits = take-Fits a.max_tokens a q selected tokens ref refl v.counted h;
}

budget_keeps : (a : Request) → KeepsRound a (λ rest q selected tokens. Bounded a selected tokens)
budget_keeps a = record {
  on_discard = λ reason k ref rest q selected tokens d v. v;
  on_stop = λ k ref rest q selected tokens d v. v;
  on_take = λ k ref rest q selected tokens e v. take-Bounded a q selected tokens ref v e;
}

start-Fits : (limit : Option ℕ) → Fits limit []
start-Fits none = tt
start-Fits (some limit) = inl (omega arith)

-- The loop never selects more than was asked for.
pub select-Bounded :
    (a : Request) (q : SampleQueue) → (tokens : ℕ) × Bounded a (select a q.pending q [] 0).1 tokens
select-Bounded a q =
    select_rule a _ (budget_keeps a) q.pending q [] 0
      (record { few = omega arith; counted = refl; fits = start-Fits a.max_tokens })

-- ===== src/SampleQueue/Loop.antt =====
-- The invariant rule of the selection loop in `reserve_train_batch` of nano_rl/runtime/sample_queue.py.
use nano_rl.Prelude.{ℕ, ◌+◌, String, ◌≡◌, refl, ◌⊎◌, inl, inr, List, [], ◌∷◌, ◌++◌}
use nano_rl.Prelude.Dict.{Dict}
use nano_rl.Protocols.{SampleRef}
use nano_rl.SampleQueue.{SampleQueue, Request, Verdict, expire, stop, take, judge, select, discard}

abbrev pub Family : Type 1
Family = Dict String SampleRef → SampleQueue → List SampleRef → ℕ → Type 0

-- The verdicts that throw an entry away.
abbrev pub Discards : Verdict → Type 0
Discards d = (d ≡ expire) ⊎ (d ≡ Verdict.lag)

-- One round, whatever its verdict, keeps the family.
pub record KeepsRound (a : Request) (P : Family) : Type 0 where
  pub on_discard :
      (reason k : String) (ref : SampleRef) (rest : Dict String SampleRef) (q : SampleQueue)
      (selected : List SampleRef) (tokens : ℕ)
      → Discards (judge a q selected tokens ref)
      → P ((k, ref) ∷ rest) q selected tokens
      → P rest (discard k reason q) selected tokens
  pub on_stop :
      (k : String) (ref : SampleRef) (rest : Dict String SampleRef) (q : SampleQueue)
      (selected : List SampleRef) (tokens : ℕ)
      → judge a q selected tokens ref ≡ stop
      → P ((k, ref) ∷ rest) q selected tokens
      → P [] q selected tokens
  pub on_take :
      (k : String) (ref : SampleRef) (rest : Dict String SampleRef) (q : SampleQueue)
      (selected : List SampleRef) (tokens : ℕ)
      → judge a q selected tokens ref ≡ take
      → P ((k, ref) ∷ rest) q selected tokens
      → P rest q (selected ++ (ref ∷ [])) (tokens + ref.num_tokens)

-- The family holds at the end of the loop, with some final count of tokens.
abbrev pub AtEnd : Family → SampleQueue × List SampleRef → Type 0
AtEnd P (q, selected) = (tokens : ℕ) × P [] q selected tokens

module _ (a : Request) (P : Family) (keeps : KeepsRound a P) where
  pub select_rule :
      (rest : Dict String SampleRef) (q : SampleQueue) (selected : List SampleRef) (tokens : ℕ)
      → P rest q selected tokens
      → AtEnd P (select a rest q selected tokens)
  unfolding select
  select_rule [] q selected tokens h = (tokens, h)
  select_rule ((k, ref) ∷ rest) q selected tokens h =
      go (judge a q selected tokens ref) refl (λ q' s' t'. select_rule rest q' s' t')
    where
      go :
          (d : Verdict)
          → judge a q selected tokens ref ≡ d
          → ((q' : SampleQueue) (s' : List SampleRef) (t' : ℕ)
              → P rest q' s' t'
              → AtEnd P (select a rest q' s' t'))
          → AtEnd P (select a ((k, ref) ∷ rest) q selected tokens)
      go expire e ih =
          rw (e, select) (ih _ _ _ (keeps.on_discard "ttl" k ref rest q selected tokens (inl e) h))
      go Verdict.lag e ih =
          rw (e, select)
            (ih _ _ _ (keeps.on_discard "policy_lag" k ref rest q selected tokens (inr e) h))
      go stop e ih = rw (e, select) (tokens, keeps.on_stop k ref rest q selected tokens e h)
      go take e ih = rw (e, select) (ih _ _ _ (keeps.on_take k ref rest q selected tokens e h))

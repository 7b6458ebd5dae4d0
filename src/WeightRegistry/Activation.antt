-- ===== src/WeightRegistry/Activation.antt =====
-- How an activation of nano_rl/runtime/weight_registry.py comes to its end.
use mathlib.Core.Path.{subst}
use nano_rl.Prelude.{
  ℕ, String, ◌≡◌, refl, ap, ◌∙◌, true, false, none, some, List, [], ◌∷◌, ◌++◌, map, arith,
  Bool-cases, inl, inr,
}
use nano_rl.Prelude.Equality.{nat_eq, string_eq, contains, add, contains-add, contains-append}
use nano_rl.WeightRegistry.{WeightRegistry, ActivationState, all_in, same_set, ack_activation}
use nano_rl.WeightRegistry.Invariant.{IsSound, StillWaits, waited-exists, ack_activation-Change}
use nano_rl.WeightRegistry.Keeping.{Change-IsSound, step, run, RegistryCall, acks_activation}

all_in_mono :
    (xs ys zs : List String)
    → ((x : String) → contains x ys ≡ true → contains x zs ≡ true)
    → all_in xs ys ≡ true
    → all_in xs zs ≡ true
all_in_mono [] ys zs f h = refl
all_in_mono (x ∷ xs) ys zs f h = ground (arith, f x, all_in_mono xs ys zs f)

-- The acknowledgement that was missing makes the version the active one.
ack-finishes :
    (r : WeightRegistry) (a : ActivationState) (w : String)
    → IsSound r
    → r.activation ≡ some a
    → contains w a.required_workers ≡ true
    → same_set (add w a.acked_workers) a.required_workers ≡ true
    → ((ack_activation a.version_id w r).1.latest_active_global ≡ some a.version_id)
      × ((ack_activation a.version_id w r).1.activation ≡ none)
unfolding ack_activation
ack-finishes r a w h e k s =
    let (m, g) = waited-exists r a h e in
    rw (e, (nat_eq.test_iff a.version_id a.version_id).1 refl, k, s, g) (refl, refl)

ack-waits :
    (r : WeightRegistry) (a : ActivationState) (w : String)
    → IsSound r
    → r.activation ≡ some a
    → contains w a.required_workers ≡ true
    → same_set (add w a.acked_workers) a.required_workers ≡ false
    → (ack_activation a.version_id w r).1
      ≡ record r { activation = some (record a { acked_workers = add w a.acked_workers }) }
unfolding ack_activation
ack-waits r a w h e k s =
    let (m, g) = waited-exists r a h e in
    rw (e, (nat_eq.test_iff a.version_id a.version_id).1 refl, k, s, g) refl

ack_idle :
    (r : WeightRegistry) (v : ℕ) (w : String) → r.activation ≡ none → (ack_activation v w r).1 ≡ r
unfolding ack_activation
ack_idle r v w e = rw e refl

-- The workers acknowledge the version in this order.
abbrev pub acks_of : ℕ → List String → List RegistryCall
acks_of v ws = map (acks_activation v) ws

acks_idle :
    (ws : List String) (r : WeightRegistry) (v : ℕ) → r.activation ≡ none → run (acks_of v ws) r ≡ r
unfolding run step
acks_idle [] r v e = refl
acks_idle (w ∷ ws) r v e = ap (run (acks_of v ws)) (ack_idle r v w e) ∙ acks_idle ws r v e

-- In a sound registry with an activation under way: once required workers have acknowledged so
-- that, with the earlier acknowledgements, none is missing, in whatever order and however often,
-- the version is the latest active one.
pub all_acks_activate :
    (ws : List String) (r : WeightRegistry) (a : ActivationState)
    → IsSound r
    → r.activation ≡ some a
    → all_in ws a.required_workers ≡ true
    → all_in a.required_workers (a.acked_workers ++ ws) ≡ true
    → (run (acks_of a.version_id ws) r).latest_active_global ≡ some a.version_id
unfolding run step
all_acks_activate [] r a h e k c = absurd (
    ground (
      arith,
      (subst StillWaits e h.still_waits).0,
      (subst StillWaits e h.still_waits).1,
      all_in_mono a.required_workers (a.acked_workers ++ []) a.acked_workers
          (λ x y. ground (arith, contains-append x a.acked_workers [])) c,
    ))
all_acks_activate (w ∷ ws) r a h e k c =
    let kw : contains w a.required_workers ≡ true = ground arith in
    elim (Bool-cases (same_set (add w a.acked_workers) a.required_workers)) [
      | inl s ↦
          let (f, i) = ack-finishes r a w h e kw s in
          ap (λ x. x.latest_active_global)
            (acks_idle ws (ack_activation a.version_id w r).1 a.version_id i)
          ∙ f
      | inr s ↦
          let p = ack-waits r a w h e kw s in
          ap (λ x. (run (acks_of a.version_id ws) x).latest_active_global) p
          ∙ (all_acks_activate ws _ (record a { acked_workers = add w a.acked_workers })
              (subst IsSound p (Change-IsSound (ack_activation-Change a.version_id w r h) h)) refl
              (ground arith)
              (all_in_mono a.required_workers (a.acked_workers ++ (w ∷ ws))
                (add w a.acked_workers ++ ws)
                (λ x y. ground (
                  arith,
                  contains-append x a.acked_workers (w ∷ ws),
                  contains-append x (add w a.acked_workers) ws,
                  contains-add x w a.acked_workers,
                ))
                c))
    ]

still_missing :
    (w : String) (ws : List String) (a : ActivationState)
    → all_in a.required_workers (a.acked_workers ++ (w ∷ ws)) ≡ false
    → all_in a.required_workers (add w a.acked_workers ++ ws) ≡ false
still_missing w ws a c =
    elim (Bool-cases (all_in a.required_workers (add w a.acked_workers ++ ws))) [
      | inr f ↦ f
      | inl t ↦ absurd (
          ground (
            arith,
            all_in_mono a.required_workers (add w a.acked_workers ++ ws)
                (a.acked_workers ++ (w ∷ ws))
                (λ x y. ground (
                  arith,
                  contains-append x a.acked_workers (w ∷ ws),
                  contains-append x (add w a.acked_workers) ws,
                  contains-add x w a.acked_workers,
                ))
                t,
          ))
    ]

-- In a sound registry with an activation under way: as long as the acknowledgements of required
-- workers leave one missing, they do not change which version is active.
pub missing_ack_blocks :
    (ws : List String) (r : WeightRegistry) (a : ActivationState)
    → IsSound r
    → r.activation ≡ some a
    → all_in ws a.required_workers ≡ true
    → all_in a.required_workers (a.acked_workers ++ ws) ≡ false
    → (run (acks_of a.version_id ws) r).latest_active_global ≡ r.latest_active_global
unfolding run step
missing_ack_blocks [] r a h e k c = refl
missing_ack_blocks (w ∷ ws) r a h e k c =
    let kw : contains w a.required_workers ≡ true = ground arith in
    elim (Bool-cases (same_set (add w a.acked_workers) a.required_workers)) [
      | inl s ↦ absurd (
          ground (
            arith,
            all_in_mono a.required_workers (add w a.acked_workers) (a.acked_workers ++ (w ∷ ws))
                (λ x y. ground (
                  arith,
                  contains-append x a.acked_workers (w ∷ ws),
                  contains-add x w a.acked_workers,
                )),
          ))
      | inr s ↦
          let p = ack-waits r a w h e kw s in
          ap (λ x. (run (acks_of a.version_id ws) x).latest_active_global) p
          ∙ missing_ack_blocks ws _ (record a { acked_workers = add w a.acked_workers })
              (subst IsSound p (Change-IsSound (ack_activation-Change a.version_id w r h) h)) refl
              (ground arith) (still_missing w ws a c)
    ]

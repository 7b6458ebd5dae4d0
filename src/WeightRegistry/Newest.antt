-- ===== src/WeightRegistry/Newest.antt =====
-- What `latest_registered` of nano_rl/runtime/weight_registry.py returns.
use nano_rl.Prelude.{ℕ, ◌≡◌, ◌≤◌, refl, ap, ◌∙◌, Option, none, some, arith, Option-cases, inl, inr}
use nano_rl.Prelude.Equality.{nat_eq}
use nano_rl.Prelude.Exec.{Result, ok, err}
use nano_rl.Prelude.Dict.{lookup}
use nano_rl.Protocols.{WeightMeta}
use nano_rl.WeightRegistry.{WeightRegistry, RegistryError, latest_registered}
use nano_rl.WeightRegistry.Invariant.{IsSound}

-- Nothing only if nothing is registered; else a registered version that none is later than.
abbrev pub NewestOutcome :
    WeightRegistry → Result RegistryError (Option WeightMeta) × WeightRegistry → Type 0
NewestOutcome r (ok none, n) = (n ≡ r) × ((v : ℕ) → lookup v r.versions ≡ none)
NewestOutcome r (ok (some m), n) =
    (n ≡ r)
    × (lookup m.version_id r.versions ≡ some m)
    × ((v : ℕ) (x : WeightMeta) → lookup v r.versions ≡ some x → v ≤ m.version_id)
NewestOutcome r (err e, n) = ⊥

none_registered :
    (r : WeightRegistry) (v : ℕ)
    → IsSound r
    → r.latest_registered ≡ none
    → lookup v r.versions ≡ none
none_registered r v h e = elim (Option-cases (lookup v r.versions)) [
  | inl f ↦ f
  | inr (m, f) ↦ absurd (ground (arith, h.at v))
]

-- On a sound registry `latest_registered` does not raise and returns the greatest registered version, or
-- None when there is none.
pub latest_registered-NewestOutcome :
    (r : WeightRegistry) → IsSound r → NewestOutcome r (latest_registered r)
unfolding latest_registered
latest_registered-NewestOutcome r h = elim (Option-cases r.latest_registered) [
  | inl e ↦ rw e (refl, λ v. none_registered r v h e)
  | inr (n, e) ↦ elim (Option-cases (lookup n r.versions)) [
    | inl f ↦ absurd (ground (arith, h.at n))
    | inr (m, f) ↦
        let same : m.version_id ≡ n = ground (arith, h.at n) in
        rw (e, f)
          (refl, ap (λ v. lookup v r.versions) same ∙ f, λ v x g. ground (arith, h.at v, same))
  ]
]

-- ===== src/WeightTransfer/Planning.antt =====
-- Which sources `build_plan` of nano_rl/runtime/weight_transfer.py gives the replicas.
use mathlib.Core.Path.{subst, fun_ext}
use nano_rl.Prelude.{
  ◌≢◌, ap, sym, All-map, Option-cases, ℕ, String, ◌≡◌, refl, ◌∙◌, false, some, List, [], ◌∷◌, map,
  All, arith, Bool-cases, ◌⊎◌, inl, inr, Option, none, if◌then◌else◌,
}
use nano_rl.Prelude.Equality.{◌==◌, nat_eq, string_eq, contains, Unique}
use nano_rl.Prelude.Exec.{Result-cases, Result, ok, err}
use nano_rl.Prelude.Dict.{Dict, lookup, insert, lookup-insert, lookup-insert_self, lookup-nil}
use nano_rl.Slot.Types.{RolloutReplicaSpec, TrainerRankSpec}
use nano_rl.Protocols.{WeightMeta}
use nano_rl.WeightTransfer.{
  WeightTransferMethod, object_ref, locality_aware_checkpoint, object_ref_source, text_or,
  ray_object_ref, WeightTransferPlanner, WeightShardSource, WeightTransferError, WeightTransferPlan,
  locality_aware_source, sources_of, source_for, source_by, build_plan, plan_with, metadata_of,
  rank_by_gpu, PlanMetadata,
}
use nano_rl.WeightTransfer.Routing.{in_dict, SourceOutcome, locality_aware_source-SourceOutcome}

abbrev pub replica_id_of : RolloutReplicaSpec → String
replica_id_of r = r.replica_id

-- One of the replicas is refused with this error.
abbrev pub Refuses :
    (RolloutReplicaSpec → Result WeightTransferError WeightShardSource)
    → WeightTransferError
    → List RolloutReplicaSpec
    → Type 0
Refuses source e [] = ⊥
Refuses source e (r ∷ rs) = (source r ≡ err e) ⊎ Refuses source e rs

-- The sources that the dict comprehension makes, or the first refusal.
abbrev pub Routed :
    (RolloutReplicaSpec → Result WeightTransferError WeightShardSource)
    → List RolloutReplicaSpec
    → Result WeightTransferError (Dict String WeightShardSource)
    → Type 0
Routed source replicas (ok sources) =
    All (λ r. (s : WeightShardSource) × (lookup r.replica_id sources ≡ some s) × (source r ≡ ok s))
      replicas
Routed source replicas (err e) = Refuses source e replicas

module _ (source : RolloutReplicaSpec → Result WeightTransferError WeightShardSource) where
  sources_of-other :
      (id : String) (rs : List RolloutReplicaSpec) (d e : Dict String WeightShardSource)
      → contains id (map replica_id_of rs) ≡ false
      → sources_of source rs d ≡ ok e
      → lookup id e ≡ lookup id d
  unfolding sources_of
  sources_of-other id [] d e n h = ground arith
  sources_of-other id (r ∷ rs) d e n h = elim (Result-cases (source r)) [
    | inl (x, f) ↦ absurd (ground (arith, f))
    | inr (s, f) ↦ ground (
      arith,
      f,
      sources_of-other id rs (insert r.replica_id s d) e,
      lookup-insert id r.replica_id s d,
    )
  ]

  first-Routed :
      (r : RolloutReplicaSpec) (rs : List RolloutReplicaSpec) (d : Dict String WeightShardSource)
      (s : WeightShardSource)
      → Unique (map replica_id_of (r ∷ rs))
      → source r ≡ ok s
      → (x : Result WeightTransferError (Dict String WeightShardSource))
      → sources_of source rs (insert r.replica_id s d) ≡ x
      → Routed source rs x
      → Routed source (r ∷ rs) x
  first-Routed r rs d s u f (ok e) h k = (
    (
      s,
      sources_of-other r.replica_id rs (insert r.replica_id s d) e u.0 h
          ∙ lookup-insert_self r.replica_id s d,
      f,
    ),
    k,
  )
  first-Routed r rs d s u f (err e) h k = inr k

  sources_of-Routed :
      (rs : List RolloutReplicaSpec) (d : Dict String WeightShardSource)
      → Unique (map replica_id_of rs)
      → Routed source rs (sources_of source rs d)
  unfolding sources_of
  sources_of-Routed [] d u = tt
  sources_of-Routed (r ∷ rs) d u = elim (Result-cases (source r)) [
    | inl (x, f) ↦ rw (sources_of, f) (inl f)
    | inr (s, f) ↦
        rw (sources_of, f)
          (first-Routed r rs d s u f _ refl (sources_of-Routed rs (insert r.replica_id s d) u.1))
  ]

-- The rank of a GPU: that of the last specification with this GPU.
pub rank_of : List TrainerRankSpec → ℕ → Option ℕ
rank_of [] g = none
rank_of (t ∷ ts) g = elim (rank_of ts g) [
  | none ↦ if t.gpu_id == g then some t.rank else none
  | some r ↦ some r
]

lookup-rank_by_gpu :
    (g : ℕ) (ts : List TrainerRankSpec) (d : Dict ℕ ℕ)
    → lookup g (rank_by_gpu ts d) ≡ elim (rank_of ts g) [ none ↦ lookup g d | some r ↦ some r ]
unfolding rank_by_gpu rank_of
lookup-rank_by_gpu g [] d = refl
lookup-rank_by_gpu g (t ∷ ts) d =
    ground
      (arith, lookup-rank_by_gpu g ts (insert t.gpu_id t.rank d), lookup-insert g t.gpu_id t.rank d)

in_dict-rank_of : (ts : List TrainerRankSpec) → in_dict (rank_by_gpu ts []) ≡ rank_of ts
in_dict-rank_of ts = fun_ext (λ g. ground (arith, lookup-rank_by_gpu g ts [], lookup-nil {V = ℕ} g))

-- The text that the plan gives as the artifact: the uri of the weights unless it is empty, else their path.
abbrev pub ArtifactOf : WeightMeta → String → Type 0
ArtifactOf meta u =
    ((meta.artifact_uri ≡ some u) × (u ≢ ""))
    ⊎ (((meta.artifact_uri ≡ none) ⊎ (meta.artifact_uri ≡ some "")) × (u ≡ meta.model_path))

-- What each method makes of a replica.
abbrev pub ByMethod :
    WeightTransferMethod
    → WeightTransferPlanner
    → WeightMeta
    → (ℕ → Option ℕ)
    → String
    → RolloutReplicaSpec
    → Result WeightTransferError WeightShardSource
    → Type 0
ByMethod object_ref p meta rank_at artifact r (err e) = ⊥
ByMethod object_ref p meta rank_at artifact r (ok s) =
    (s.kind ≡ ray_object_ref)
    × (s.replica_id ≡ r.replica_id)
    × (s.target_gpu_ids ≡ r.gpu_ids)
    × (s.target_worker_ids ≡ r.worker_ids)
    × (s.object_ref_key ≡ some (meta.version_id, r.replica_id))
    × (s.artifact_uri ≡ none)
ByMethod locality_aware_checkpoint p meta rank_at artifact r x =
    SourceOutcome p r rank_at artifact x

-- One of the replicas is refused with this error.
abbrev pub SomeRefused : (RolloutReplicaSpec → Type 0) → List RolloutReplicaSpec → Type 0
SomeRefused P [] = ⊥
SomeRefused P (r ∷ rs) = P r ⊎ SomeRefused P rs

abbrev chosen : WeightMeta → String
chosen meta = text_or meta.artifact_uri meta.model_path

chosen-ArtifactOf : (meta : WeightMeta) → ArtifactOf meta (chosen meta)
chosen-ArtifactOf meta = elim (Option-cases meta.artifact_uri) [
  | inl e ↦ inr (inl e, rw e refl)
  | inr (s, e) ↦ elim (Bool-cases (s == "")) [
    | inl b ↦
        let blank : s ≡ "" = (string_eq.test_iff s "").0 b in
        inr (inr (e ∙ ap some blank), rw (e, b) refl)
    | inr b ↦
        let same : chosen meta ≡ s = rw (e, b) refl in
        inl (
          e ∙ ap some (sym same),
          λ q. let t = (string_eq.test_iff s "").1 (sym same ∙ q) in absurd (ground (arith, t, b)),
        )
  ]
]

source_by-ByMethod :
    (p : WeightTransferPlanner) (meta : WeightMeta) (ts : List TrainerRankSpec)
    (r : RolloutReplicaSpec) (m : WeightTransferMethod)
    → ByMethod m p meta (rank_of ts) (chosen meta) r (source_by m p meta (rank_by_gpu ts []) r)
unfolding object_ref_source
source_by-ByMethod p meta ts r object_ref = (refl, refl, refl, refl, refl, refl)
source_by-ByMethod p meta ts r locality_aware_checkpoint =
    subst
      (λ f.
        SourceOutcome p r f (chosen meta)
          (locality_aware_source p r meta (rank_by_gpu ts []) (chosen meta)))
      (in_dict-rank_of ts)
      (locality_aware_source-SourceOutcome p r meta (rank_by_gpu ts []) (chosen meta))

-- What becomes of a whole plan, with an artifact.
abbrev PlannedWith :
    WeightTransferPlanner
    → WeightMeta
    → List RolloutReplicaSpec
    → List TrainerRankSpec
    → String
    → Result WeightTransferError WeightTransferPlan
    → Type 0
PlannedWith p meta replicas ts u (ok plan) =
    (plan.version_id ≡ meta.version_id)
    × (plan.method ≡ p.method)
    × (plan.artifact_uri ≡ some u)
    × (plan.manifest_uri ≡ meta.manifest_uri)
    × All
        (λ r.
          (s : WeightShardSource) × (lookup r.replica_id plan.sources ≡ some s)
          × ByMethod p.method p meta (rank_of ts) u r (ok s))
        replicas
PlannedWith p meta replicas ts u (err e) =
    SomeRefused (λ r. ByMethod p.method p meta (rank_of ts) u r (err e)) replicas

abbrev pub PlanOutcome :
    WeightTransferPlanner
    → WeightMeta
    → List RolloutReplicaSpec
    → List TrainerRankSpec
    → Result WeightTransferError WeightTransferPlan
    → Type 0
PlanOutcome p meta replicas ts x =
    (u : String) × ArtifactOf meta u × PlannedWith p meta replicas ts u x

refused-by :
    (p : WeightTransferPlanner) (meta : WeightMeta) (ts : List TrainerRankSpec)
    (e : WeightTransferError) (rs : List RolloutReplicaSpec)
    → Refuses (source_for p meta (rank_by_gpu ts [])) e rs
    → SomeRefused (λ r. ByMethod p.method p meta (rank_of ts) (chosen meta) r (err e)) rs
refused-by p meta ts e [] h = h
refused-by p meta ts e (r ∷ rs) (inl h) = inl (
    subst (ByMethod p.method p meta (rank_of ts) (chosen meta) r) h
      (source_by-ByMethod p meta ts r p.method))
refused-by p meta ts e (r ∷ rs) (inr h) = inr (refused-by p meta ts e rs h)

plan_with-PlannedWith :
    (p : WeightTransferPlanner) (meta : WeightMeta) (replicas : List RolloutReplicaSpec)
    (ts : List TrainerRankSpec) (metadata : PlanMetadata)
    (x : Result WeightTransferError (Dict String WeightShardSource))
    → Routed (source_for p meta (rank_by_gpu ts [])) replicas x
    → PlannedWith p meta replicas ts (chosen meta) (plan_with meta p.method metadata x)
plan_with-PlannedWith p meta replicas ts metadata (ok d) h = (
  refl,
  refl,
  refl,
  refl,
  All-map replicas
      (λ r (s, found, made). (
        s,
        found,
        subst (ByMethod p.method p meta (rank_of ts) (chosen meta) r) made
            (source_by-ByMethod p meta ts r p.method),
      ))
      h,
)
plan_with-PlannedWith p meta replicas ts metadata (err e) h = refused-by p meta ts e replicas h

-- For replicas with different ids: a plan carries the version, the method and the manifest, and as artifact
-- the uri of the weights or, without one, their path. It has a source for each replica: by the object
-- reference method one with the key of the version and the replica; by the locality-aware method one
-- that reshards on the replica's own GPUs exactly when each of them has a trainer rank, the last one
-- of that GPU, and else pulls the artifact. When there is no plan, the method is the locality-aware
-- one, pulling is disabled, and some replica is refused with those of its GPUs that have no rank.
pub build_plan-PlanOutcome :
    (p : WeightTransferPlanner) (meta : WeightMeta) (replicas : List RolloutReplicaSpec)
    (trainer_ranks : List TrainerRankSpec)
    → Unique (map replica_id_of replicas)
    → PlanOutcome p meta replicas trainer_ranks (build_plan p meta replicas trainer_ranks)
unfolding build_plan
build_plan-PlanOutcome p meta replicas trainer_ranks u = (
  chosen meta,
  chosen-ArtifactOf meta,
  plan_with-PlannedWith p meta replicas trainer_ranks
      (metadata_of p.method (rank_by_gpu trainer_ranks [])) _
      (sources_of-Routed (source_for p meta (rank_by_gpu trainer_ranks [])) replicas [] u),
)

-- ===== src/WeightStore/Interface.antt =====
-- The protocol `WeightStore` of nano_rl/runtime/weight_store.py: what a store promises, and a run of
-- calls on any store that keeps the promise.
use nano_rl.Prelude.{ℕ, ◌≡◌, refl, Option, none, some, List, [], ◌∷◌, if◌then◌else◌}
use nano_rl.Prelude.Equality.{◌==◌, nat_eq}
use nano_rl.Prelude.Exec.{Result, ok, err}
use nano_rl.Protocols.{WeightMeta}
use nano_rl.WeightStore.Manifests.{StoreError, Texts, WeightPayload, build_meta}
use nano_rl.WeightStore.Manifests.RoundTrip.{normal}
use nano_rl.WeightStore.Memory.{found}

pub record StoreOps (S : Type 0) : Type 0 where
  pub store : WeightPayload → S → WeightMeta × S
  pub load : ℕ → S → Result StoreError WeightPayload × S
  pub meta : ℕ → S → Result StoreError WeightMeta × S

-- The abstract view: the payload of each version, in its JSON form.
abbrev pub Versions : Type 0
Versions = ℕ → Option WeightPayload

abbrev pub update : Texts → WeightPayload → Versions → Versions
update t p m v = if p.version_id == v then some (normal t p) else m v

-- Metadata without the places that it names, which differ from store to store.
abbrev pub plain : WeightMeta → WeightMeta
plain m = record m { artifact_uri = none; manifest_uri = none }

abbrev pub plain_meta : Texts → WeightPayload → WeightMeta
plain_meta t p = plain (build_meta t p none none)

abbrev pub on_ok : {A B : Type 0} → (A → B) → Result StoreError A → Result StoreError B
on_ok f (ok a) = ok (f a)
on_ok f (err e) = err e

abbrev pub on_some : {A B : Type 0} → (A → B) → Option A → Option B
on_some f none = none
on_some f (some a) = some (f a)

pub on_ok-found :
    {A B : Type 0} (f : A → B) (v : ℕ) (o : Option A) → on_ok f (found v o) ≡ found v (on_some f o)
on_ok-found f v none = refl
on_ok-found f v (some a) = refl

-- The laws of a store whose state `s` holds the versions `m` when `Holds s m`.
pub record StoreLaws {S : Type 0} (t : Texts) (o : StoreOps S) (Holds : S → Versions → Type 0)
    : Type 0 where
  pub store_answer : (p : WeightPayload) (s : S) → plain (o.store p s).0 ≡ plain_meta t p
  pub store_holds :
      (p : WeightPayload) (s : S) (m : Versions) → Holds s m → Holds (o.store p s).1 (update t p m)
  pub load_answer :
      (v : ℕ) (s : S) (m : Versions) → Holds s m → on_ok (normal t) (o.load v s).0 ≡ found v (m v)
  pub load_holds : (v : ℕ) (s : S) (m : Versions) → Holds s m → Holds (o.load v s).1 m
  pub meta_answer :
      (v : ℕ) (s : S) (m : Versions)
      → Holds s m
      → on_ok plain (o.meta v s).0 ≡ found v (on_some (plain_meta t) (m v))
  pub meta_holds : (v : ℕ) (s : S) (m : Versions) → Holds s m → Holds (o.meta v s).1 m

pub data Call : Type 0 where
  store : WeightPayload → Call
  load meta : ℕ → Call

pub data Answer : Type 0 where
  stored : WeightMeta → Answer
  loaded : Result StoreError WeightPayload → Answer
  described : Result StoreError WeightMeta → Answer

-- The answers of the abstract view.
abbrev pub replay : Texts → List Call → Versions → List Answer
replay t [] m = []
replay t (Call.store p ∷ cs) m = stored (plain_meta t p) ∷ replay t cs (update t p m)
replay t (Call.load v ∷ cs) m = loaded (found v (m v)) ∷ replay t cs m
replay t (Call.meta v ∷ cs) m = described (found v (on_some (plain_meta t) (m v))) ∷ replay t cs m

module _ {S : Type 0} (t : Texts) (o : StoreOps S) where
  -- The answers of a store, as a caller sees them: payloads in their JSON form, metadata without places.
  abbrev pub run : List Call → S → List Answer
  run [] s = []
  run (Call.store p ∷ cs) s = let (m, s') = o.store p s in stored (plain m) ∷ run cs s'
  run (Call.load v ∷ cs) s = let (r, s') = o.load v s in loaded (on_ok (normal t) r) ∷ run cs s'
  run (Call.meta v ∷ cs) s = let (r, s') = o.meta v s in described (on_ok plain r) ∷ run cs s'

module _ {S : Type 0} (o : StoreOps S) where
  -- The store after the calls.
  abbrev pub final : List Call → S → S
  final [] s = s
  final (Call.store p ∷ cs) s = final cs (o.store p s).1
  final (Call.load v ∷ cs) s = final cs (o.load v s).1
  final (Call.meta v ∷ cs) s = final cs (o.meta v s).1

-- The versions after the calls.
abbrev pub versions_after : Texts → List Call → Versions → Versions
versions_after t [] m = m
versions_after t (Call.store p ∷ cs) m = versions_after t cs (update t p m)
versions_after t (Call.load v ∷ cs) m = versions_after t cs m
versions_after t (Call.meta v ∷ cs) m = versions_after t cs m

module _ {S : Type 0} (t : Texts) (o : StoreOps S) (Holds : S → Versions → Type 0)
    (laws : StoreLaws t o Holds) where
  pub run-replay :
      (cs : List Call) (s : S) (m : Versions) → Holds s m → run t o cs s ≡ replay t cs m
  run-replay [] s m h = refl
  run-replay (Call.store p ∷ cs) s m h =
      rw (laws.store_answer p s, run-replay cs _ _ (laws.store_holds p s m h)) refl
  run-replay (Call.load v ∷ cs) s m h =
      rw (laws.load_answer v s m h, run-replay cs _ _ (laws.load_holds v s m h)) refl
  run-replay (Call.meta v ∷ cs) s m h =
      rw (laws.meta_answer v s m h, run-replay cs _ _ (laws.meta_holds v s m h)) refl

  pub final-Holds :
      (cs : List Call) (s : S) (m : Versions)
      → Holds s m
      → Holds (final o cs s) (versions_after t cs m)
  final-Holds [] s m h = h
  final-Holds (Call.store p ∷ cs) s m h = final-Holds cs _ _ (laws.store_holds p s m h)
  final-Holds (Call.load v ∷ cs) s m h = final-Holds cs _ _ (laws.load_holds v s m h)
  final-Holds (Call.meta v ∷ cs) s m h = final-Holds cs _ _ (laws.meta_holds v s m h)

-- ===== src/WeightStore/Agreement.antt =====
-- The two stores of nano_rl/runtime/weight_store.py seen by a caller.
use nano_rl.Prelude.{ℕ, String, ◌≡◌, refl, sym, ◌∙◌, none, List}
use nano_rl.Prelude.Equality.{nat_eq, string_eq, pair_eq}
use nano_rl.Prelude.Exec.{Result, ok, err}
use nano_rl.Prelude.Dict.{lookup}
use nano_rl.WeightStore.Manifests.{StoreError, Texts, ReadsBack, Disk}
use nano_rl.WeightStore.Memory.{empty}
use nano_rl.WeightStore.Memory.Laws as Mem
use nano_rl.WeightStore.Files.{FileStore, open_store}
use nano_rl.WeightStore.Files.Laws as File
use nano_rl.WeightStore.Files.Stored as Stored
use nano_rl.WeightStore.Files.Opening.{Opened, open_store-Opened}
use nano_rl.WeightStore.Interface.{
  Versions, Call, run, replay, final, versions_after, run-replay, final-Holds,
}

abbrev pub no_versions : Versions
no_versions v = none

pub empty-Holds : (t : Texts) → Mem.Holds t empty no_versions
unfolding lookup
empty-Holds t = record { payload_at = λ v. refl; meta_at = λ v. refl }

-- What a file store that was opened answers is what the memory store answers.
abbrev pub Agrees : Texts → List Call → Result StoreError (Unit {0}) × FileStore → Type 0
Agrees t cs (ok _, s) = run t (File.file_ops t) cs s ≡ run t (Mem.memory_ops t) cs empty
Agrees t cs (err e, s) = ⊥

-- The disk of the store opened again answers what the store itself would have answered.
abbrev pub Survives :
    Texts → List Call → FileStore → Result StoreError (Unit {0}) × FileStore → Type 0
Survives t cs s (ok _, r) = run t (File.file_ops t) cs r ≡ run t (File.file_ops t) cs s
Survives t cs s (err e, r) = ⊥

abbrev pub SurvivesAfter :
    Texts → List Call → List Call → Result StoreError (Unit {0}) × FileStore → Type 0
SurvivesAfter t before cs (ok _, s) =
    let s' = final (File.file_ops t) before s in Survives t cs s' (open_store t s'.root_dir s'.disk)
SurvivesAfter t before cs (err e, s) = ⊥

fresh-OnDisk :
    (t : Texts) (root : String) (disk : Disk)
    → ((v : ℕ) → lookup (root, v) disk ≡ none)
    → Stored.OnDisk t root disk no_versions
fresh-OnDisk t root disk fresh = record { manifest_at = fresh; named = λ v p e. absurd (cc) }

memory_replays :
    (t : Texts) (cs : List Call) → run t (Mem.memory_ops t) cs empty ≡ replay t cs no_versions
memory_replays t cs =
    run-replay t (Mem.memory_ops t) (Mem.Holds t) (Mem.memory_laws t) cs empty no_versions
      (empty-Holds t)

module _ (t : Texts) (back : ReadsBack t) where
  file_replays :
      (cs : List Call) (s : FileStore) (m : Versions)
      → Stored.Holds t s m
      → run t (File.file_ops t) cs s ≡ replay t cs m
  file_replays cs s m h =
      run-replay t (File.file_ops t) (Stored.Holds t) (File.file_laws t back) cs s m h

  open-Agrees :
      (cs : List Call) (r : Result StoreError (Unit {0}) × FileStore)
      → Opened t no_versions r
      → Agrees t cs r
  open-Agrees cs (ok _, s) h = file_replays cs s no_versions h ∙ sym (memory_replays t cs)
  open-Agrees cs (err e, s) h = elim h [ ]

  open-Survives :
      (cs : List Call) (s : FileStore) (m : Versions) (r : Result StoreError (Unit {0}) × FileStore)
      → Stored.Holds t s m
      → Opened t m r
      → Survives t cs s r
  open-Survives cs s m (ok _, r) h k = file_replays cs r m k ∙ sym (file_replays cs s m h)
  open-Survives cs s m (err e, r) h k = elim k [ ]

  open-SurvivesAfter :
      (before cs : List Call) (r : Result StoreError (Unit {0}) × FileStore)
      → Opened t no_versions r
      → SurvivesAfter t before cs r
  open-SurvivesAfter before cs (ok _, s) h =
      let m = versions_after t before no_versions in
      let s' = final (File.file_ops t) before s in
      let k =
        final-Holds t (File.file_ops t) (Stored.Holds t) (File.file_laws t back) before s
          no_versions h in
      open-Survives cs s' m (open_store t s'.root_dir s'.disk) k
        (open_store-Opened t back s'.root_dir s'.disk m k.on_disk)
  open-SurvivesAfter before cs (err e, s) h = elim h [ ]

module _ (t : Texts) (back : ReadsBack t) (root : String) (disk : Disk) where
  -- Whatever is stored, loaded and described, in whatever order, the memory store and the filesystem
  -- store, opened on a disk without manifests below its root, give the same answers, errors included,
  -- when payloads are compared in their JSON form and metadata without its two places; and they are the
  -- answers of a map from versions to payloads.
  pub stores_agree :
      (cs : List Call)
      → ((v : ℕ) → lookup (root, v) disk ≡ none)
      → Agrees t cs (open_store t root disk)
        × (run t (Mem.memory_ops t) cs empty ≡ replay t cs no_versions)
  stores_agree cs fresh = (
    open-Agrees t back cs (open_store t root disk)
        (open_store-Opened t back root disk no_versions (fresh-OnDisk t root disk fresh)),
    memory_replays t cs,
  )

  -- After any calls on a filesystem store that was opened on a disk without manifests below its root, a
  -- store opened on what is then on the disk answers any further calls as the first would have.
  pub restart_survives :
      (before cs : List Call)
      → ((v : ℕ) → lookup (root, v) disk ≡ none)
      → SurvivesAfter t before cs (open_store t root disk)
  restart_survives before cs fresh =
      open-SurvivesAfter t back before cs (open_store t root disk)
        (open_store-Opened t back root disk no_versions (fresh-OnDisk t root disk fresh))

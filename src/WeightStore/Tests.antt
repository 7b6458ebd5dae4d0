-- ===== src/WeightStore/Tests.antt =====
-- Witnesses and tests of the weight stores: a payload with a tuple, and numbers written in unary.
use Prim.Native.String.{len, ◌++◌ as str_append}
use Prim.Native.Nat.{zero, suc}
use package.text.Mathlib.TextPositions.{len-append}
use nano_rl.Prelude.{ℕ, String, ◌≡◌, refl, ap, arith, none, some, List, [], ◌∷◌}
use nano_rl.Prelude.Equality.{nat_eq, string_eq, pair_eq}
use nano_rl.Prelude.Exec.{ok}
use nano_rl.Prelude.Dict.{lookup}
use nano_rl.Protocols.{WeightFormat}
use nano_rl.WeightStore.Values.{text, number, tuple, nil, cons, end, entry}
use nano_rl.WeightStore.Manifests.{
  Texts, ReadsBack, WeightPayload, read_manifest, write_manifest, build_meta,
}
use nano_rl.WeightStore.Manifests.RoundTrip.{normal, read-write_manifest}
use nano_rl.WeightStore.Memory.{empty}
use nano_rl.WeightStore.Memory.Laws.{memory_ops}
use nano_rl.WeightStore.Files.{FileStore, open_store, materialize, store}
use nano_rl.WeightStore.Files.Stored.{Holds}
use nano_rl.WeightStore.Files.Laws.{file_laws}
use nano_rl.WeightStore.Files.Copying.{Copied, materialize-Copied}
use nano_rl.WeightStore.Interface.{Call, run, replay, update}
use nano_rl.WeightStore.Agreement.{
  Agrees, SurvivesAfter, no_versions, stores_agree, restart_survives,
}
use nano_rl.WeightStore.Building.{build_mock_weight_payload}

unary : ℕ → String
unary zero = ""
unary (suc n) = str_append "|" (unary n)

unary-len : (n : ℕ) → len (unary n) ≡ n
unfolding unary
unary-len zero = refl
unary-len (suc n) = omega (arith, len-append "|" (unary n), unary-len n)

abbrev texts : Texts
texts = record {
  isoformat = unary;
  fromisoformat = λ s. some (len s);
  digest = λ v. "digest";
  decimal = unary;
  join = λ a b. str_append a (str_append "/" b);
}

texts-ReadsBack : ReadsBack texts
texts-ReadsBack = record { iso = λ n. ap some (unary-len n) }

abbrev payload : WeightPayload
payload =
    build_mock_weight_payload 3 (some 2) none "mock://model" WeightFormat.hf
      (some (entry "w" (tuple (cons (number 1) nil)) end)) none none none none none "test"

abbrev calls : List Call
calls = Call.load 3 ∷ Call.store payload ∷ Call.meta 3 ∷ Call.load 3 ∷ []

read-write_manifest_example :
    read_manifest texts (write_manifest texts payload (build_meta texts payload none none))
    ≡ ok (normal texts payload, build_meta texts payload none none)
read-write_manifest_example =
    read-write_manifest texts texts-ReadsBack payload (build_meta texts payload none none)

stores_agree_example :
    Agrees texts calls (open_store texts "weights" [])
    × (run texts (memory_ops texts) calls empty ≡ replay texts calls no_versions)
unfolding lookup
stores_agree_example = stores_agree texts texts-ReadsBack "weights" [] calls (λ v. refl)

restart_survives_example : SurvivesAfter texts calls calls (open_store texts "weights" [])
unfolding lookup
restart_survives_example =
    restart_survives texts texts-ReadsBack "weights" [] calls calls (λ v. refl)

abbrev fresh : FileStore
fresh = record { root_dir = "weights"; disk = []; payloads = []; metas = [] }

fresh-Holds : Holds texts fresh no_versions
unfolding lookup
fresh-Holds = record {
  on_disk = record { manifest_at = λ v. refl; named = λ v p e. absurd (cc) };
  cached = λ v. tt;
}

materialize-Copied_example :
    Copied texts 3 "elsewhere" "weights"
      (update texts payload no_versions)
      (materialize texts 3 (some "elsewhere") (store texts payload fresh).1)
unfolding store
materialize-Copied_example =
    materialize-Copied texts texts-ReadsBack 3 "elsewhere" (store texts payload fresh).1
      (update texts payload no_versions)
      ((file_laws texts texts-ReadsBack).store_holds payload fresh no_versions fresh-Holds)

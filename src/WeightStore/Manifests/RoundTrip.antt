-- ===== src/WeightStore/Manifests/RoundTrip.antt =====
-- Manifests of nano_rl/runtime/weight_store.py, written and read back.
use nano_rl.Prelude.{ℕ, String, ◌≡◌, refl, ap, Option, none, some}
use nano_rl.Prelude.Exec.{ok}
use nano_rl.Protocols.{WeightMeta, WeightFormat, WeightStatus}
use nano_rl.WeightStore.Values.{mapping, field, jsonable_entries, jsonable_entries-jsonable_entries}
use nano_rl.WeightStore.Manifests.{
  Texts, ReadsBack, WeightPayload, checksum, to_checksum_dict, to_manifest_payload,
  from_manifest_payload, dump_weight_meta, read_meta, write_manifest, read_manifest, build_meta,
  format_named, format_value, status_named, status_value, as_opt_number, opt_number, as_opt_text,
  opt_text,
}

-- A payload whose values have gone through JSON.
abbrev pub normal : Texts → WeightPayload → WeightPayload
normal t p = record p {
  weights = jsonable_entries t.isoformat p.weights;
  metadata = jsonable_entries t.isoformat p.metadata;
}

format_named-value : (f : WeightFormat) → format_named (format_value f) ≡ ok f
format_named-value WeightFormat.hf = refl
format_named-value WeightFormat.safetensors = refl
format_named-value WeightFormat.vllm_compatible = refl

status_named-value : (s : WeightStatus) → status_named (status_value s) ≡ ok s
status_named-value WeightStatus.registered = refl
status_named-value WeightStatus.activating = refl
status_named-value WeightStatus.active_global = refl
status_named-value WeightStatus.failed = refl
status_named-value WeightStatus.deprecated = refl

as_opt_number-opt_number :
    (key : String) (o : Option ℕ) → as_opt_number key (some (opt_number o)) ≡ ok o
as_opt_number-opt_number key none = refl
as_opt_number-opt_number key (some n) = refl

as_opt_text-opt_text :
    (key : String) (o : Option String) → as_opt_text key (some (opt_text o)) ≡ ok o
as_opt_text-opt_text key none = refl
as_opt_text-opt_text key (some s) = refl

module _ (t : Texts) (back : ReadsBack t) where
  from-to_manifest_payload :
      (p : WeightPayload) → from_manifest_payload t (to_manifest_payload t p) ≡ ok (normal t p)
  unfolding from_manifest_payload to_manifest_payload field
  from-to_manifest_payload p =
      rw
        (
          back.iso,
          format_named-value,
          as_opt_number-opt_number "parent_version" p.parent_version,
          as_opt_number-opt_number "trainer_step" p.trainer_step,
          as_opt_text-opt_text "tokenizer_path" p.tokenizer_path,
          as_opt_text-opt_text "artifact_uri" p.artifact_uri,
          as_opt_text-opt_text "tokenizer_hash" p.tokenizer_hash,
          as_opt_text-opt_text "chat_template_hash" p.chat_template_hash,
        )
        refl

  read-dump_weight_meta : (m : WeightMeta) → read_meta t (dump_weight_meta t m) ≡ ok m
  unfolding read_meta dump_weight_meta field
  read-dump_weight_meta m =
      rw
        (
          back.iso,
          format_named-value,
          status_named-value,
          as_opt_number-opt_number "parent_version" m.parent_version,
          as_opt_number-opt_number "trainer_step" m.trainer_step,
          as_opt_text-opt_text "tokenizer_path" m.tokenizer_path,
          as_opt_text-opt_text "artifact_uri" m.artifact_uri,
          as_opt_text-opt_text "manifest_uri" m.manifest_uri,
          as_opt_text-opt_text "tokenizer_hash" m.tokenizer_hash,
          as_opt_text-opt_text "chat_template_hash" m.chat_template_hash,
          as_opt_text-opt_text "created_by" m.created_by,
        )
        refl

  -- Reading a manifest back gives the metadata that was written and the payload, with its tuples as
  -- arrays and its instants as texts.
  pub read-write_manifest :
      (p : WeightPayload) (m : WeightMeta)
      → read_manifest t (write_manifest t p m) ≡ ok (normal t p, m)
  unfolding read_manifest write_manifest field
  read-write_manifest p m = rw (from-to_manifest_payload p, read-dump_weight_meta m) refl

module _ (t : Texts) where
  to_checksum_dict-normal :
      (p : WeightPayload) → to_checksum_dict t (normal t p) ≡ to_checksum_dict t p
  unfolding to_checksum_dict
  to_checksum_dict-normal p = simp (
    jsonable_entries-jsonable_entries t.isoformat p.weights,
    jsonable_entries-jsonable_entries t.isoformat p.metadata,
  )

  pub checksum-normal : (p : WeightPayload) → checksum t (normal t p) ≡ checksum t p
  unfolding checksum
  checksum-normal p =
      ap (λ d. t.digest (mapping (jsonable_entries t.isoformat d))) (to_checksum_dict-normal p)

  to_manifest_payload-normal :
      (p : WeightPayload) → to_manifest_payload t (normal t p) ≡ to_manifest_payload t p
  unfolding to_manifest_payload
  to_manifest_payload-normal p = simp (
    jsonable_entries-jsonable_entries t.isoformat p.weights,
    jsonable_entries-jsonable_entries t.isoformat p.metadata,
  )

  pub write_manifest-normal :
      (p : WeightPayload) (m : WeightMeta) → write_manifest t (normal t p) m ≡ write_manifest t p m
  unfolding write_manifest
  write_manifest-normal p m = rw (to_manifest_payload-normal p) refl

  pub build_meta-normal :
      (p : WeightPayload) (a b : Option String) → build_meta t (normal t p) a b ≡ build_meta t p a b
  unfolding build_meta
  build_meta-normal p a b = rw (checksum-normal p) refl

  pub normal-normal : (p : WeightPayload) → normal t (normal t p) ≡ normal t p
  normal-normal p =
      rw
        (
          jsonable_entries-jsonable_entries t.isoformat p.weights,
          jsonable_entries-jsonable_entries t.isoformat p.metadata,
        )
        refl

-- ===== src/Check/Tests.antt =====
-- internal/check/check.go: a check of a store in memory that holds one verified manifest.
use backwyn.Prelude.{◌+◌, ◌*◌, ◌≡◌, ◌↔◌, refl, true, List, [], ◌∷◌, ok, err, length, if◌then◌else◌}
use backwyn.Prelude.Int.{pos}
use backwyn.Prelude.Text.{lit, text_eq, has_prefix}
use backwyn.Time.{Time, day, sub}
use backwyn.Manifest.{Manifest, Json, no_verification, manifest_key, decode}
use backwyn.Storage.Memory.{Memory, memory}
use backwyn.Storage.Memory.Assoc.{keys, find}
use backwyn.Retention.Plan.{first_verified}
use backwyn.Artifact.Load.{load_all, load_keys, load_key}
use backwyn.Retention.Sort.{by_insertion, by_insertion-IsSorter}
use backwyn.Check.{Report, evaluate, run}
use backwyn.Check.Healthy.{IsCovered, run-healthy_iff}

abbrev proven : Manifest
proven = record {
  schema_version = pos 1;
  id = lit "20260101T000000Z";
  created_at = 740_001 * day;
  source_label = lit "host/db";
  artifact_key = lit "artifacts/20260101T000000Z.dump.enc";
  format = lit "custom";
  pg_dump_version = lit "pg_dump 17";
  plaintext_size = 10;
  encrypted_size = 100;
  plaintext_sha256 = [];
  verification = record no_verification { verified = true };
}

-- A decoder that knows one text.
unfoldable toy_json : Json
toy_json = record {
  encode = λ m. lit "one";
  decode_json = λ r. if text_eq r.bytes (lit "one") then ok proven else err (lit "EOF");
}

abbrev store : Memory
store = record { objects = (manifest_key proven.id, lit "one") ∷ []; faults = [] }

abbrev now : Time
now = 740_001 * day + 5

abbrev report : Report
unfolding evaluate by_insertion
report = evaluate (by_insertion.sort (proven ∷ [])) (pos 1_000) now

checked : (run memory toy_json by_insertion (pos 1_000) now store).0 ≡ ok report
unfolding report run load_all memory toy_json lit text_eq manifest_key load_keys keys has_prefix
    load_key find decode
checked = refl

healthy : report.healthy ≡ true
unfolding report first_verified sub
healthy = refl

run-healthy_iff_example :
    (ms : List Manifest) × ((load_all memory toy_json store).0 ≡ ok ms)
    × ((report.healthy ≡ true) ↔ IsCovered ms (pos 1_000) now)
    × (length report.reasons ≡ (if report.healthy then 0 else 1))
run-healthy_iff_example =
    run-healthy_iff memory toy_json by_insertion (pos 1_000) now store report by_insertion-IsSorter
      checked

-- ===== src/Verify/Tests.antt =====
-- internal/verify/verify.go: the verification of a good backup in a store in memory.
use backwyn.Prelude.{◌+◌, ◌*◌, ◌≡◌, ◌++◌, refl, none, some, [], ◌∷◌, ok, err, true, false}
use backwyn.Prelude.Int.{pos}
use backwyn.Prelude.Text.{Text, lit, text_eq}
use backwyn.Time.{Time, day}
use backwyn.Storage.Memory.{Memory, memory, memory-IsStore, contents}
use backwyn.Storage.Memory.Assoc.{find}
use backwyn.Manifest.{Manifest, Json, no_verification, manifest_key, artifact_key_of, decode}
use backwyn.Config.{Config, from_env}
use backwyn.Pgtools.Dsn.{Urls}
use backwyn.Host.{Host}
use backwyn.Crypto.Stream.{endless, read_full, put_uint32, uint32}
use backwyn.Crypto.Cipher.{encrypt, decrypt, read_then, magic_bytes}
use backwyn.Crypto.Tag.{tag_cipher, key32, fixed_draws}
use backwyn.Artifact.Load.{load}
use backwyn.Artifact.Materialize.{hex}
use backwyn.Verify.{Failure, run}
use backwyn.Verify.Marked.{Said, run-Said}
use backwyn.Verify.Verdict.{IsVerdict, Checks, run-ok}

-- Every program works, and counts three tables.
unfoldable counting : Host (Unit {0})
counting = record {
  look_path = λ b h. none;
  exec = λ bin args h. (record { stdout = 51 ∷ 10 ∷ []; stderr = []; failure = none }, h);
  create_temp = λ p h. (ok (47 ∷ []), h);
  writer = λ p h. endless [];
  filled = λ p s h. h;
  close = λ p h. (ok tt, h);
  open_file = λ p h. (err [], h);
  remove = λ p h. h;
}

abbrev content : Text
content = 104 ∷ 105 ∷ []

abbrev sealed : Text
unfolding encrypt
sealed =
    (encrypt tag_cipher fixed_draws key32 (record { bytes = content; fault = none })
      (endless [])).1.written

abbrev unverified : Manifest
unfolding hex
unverified = record {
  schema_version = pos 1;
  id = lit "20260101T000000Z";
  created_at = 740_001 * day;
  source_label = lit "host/db";
  artifact_key = artifact_key_of (lit "20260101T000000Z");
  format = lit "custom";
  pg_dump_version = lit "pg_dump 17";
  plaintext_size = 2;
  encrypted_size = 42;
  plaintext_sha256 = hex content;
  verification = no_verification;
}

-- A decoder that knows one manifest.
unfoldable one_json : Json
unfolding unverified
one_json = record { encode = λ m. m.id; decode_json = λ r. ok unverified }

abbrev store : Memory
unfolding unverified sealed
store = record {
  objects = (manifest_key unverified.id, unverified.id) ∷ (unverified.artifact_key, sealed) ∷ [];
  faults = [];
}

abbrev cfg : Config
cfg = record (from_env (λ v. [])) { encryption_key = key32; verify_admin_dsn = 120 ∷ [] }

abbrev now : Time
now = 740_001 * day + 60

abbrev same : Text → Text
same s = s

abbrev scratch : Urls
scratch = record {
  parse_url = λ dsn. ok (record { host = dsn; path = []; with_path = λ p. p });
  equal_fold = text_eq;
}

abbrev verified : Manifest
unfolding unverified
verified = record unverified {
  verification = record {
    verified = true;
    verified_at = now;
    checksum_ok = true;
    listable = true;
    restored = true;
    table_count = pos 3;
    error = [];
  };
}

verifies :
    (run counting same scratch memory one_json tag_cipher same cfg unverified.id now (store, tt)).0
    ≡ ok verified
unfolding run counting memory one_json unverified verified store sealed find manifest_key lit decode
    artifact_key_of decrypt read_then read_full magic_bytes put_uint32 tag_cipher uint32 from_env
verifies = refl

run-ok_example :
    (before : Manifest) × ((load memory one_json unverified.id store).0 ≡ ok before)
    × IsVerdict counting same scratch memory one_json tag_cipher same contents before now verified
        (run counting same scratch memory one_json tag_cipher same cfg unverified.id now
          (store, tt)).1.0
    × Checks counting same scratch memory one_json tag_cipher same cfg unverified.id before
        ((load memory one_json unverified.id store).1, tt)
        verified
run-ok_example =
    run-ok counting same scratch memory one_json tag_cipher same contents memory-IsStore cfg
      unverified.id now store tt verified verifies

-- The artifact cannot be read.
abbrev broken : Memory
broken = record store { faults = false ∷ true ∷ [] }

abbrev why : Text
why = lit "fetch: fetch artifact " ++ (artifact_key_of unverified.id ++ lit ": unavailable")

abbrev refusal : Failure
refusal = record {
  error = lit "verification failed: " ++ why;
  marked = some (record unverified { verification = record no_verification { error = why } });
}

fails_on_broken :
    (run counting same scratch memory one_json tag_cipher same cfg unverified.id now (broken, tt)).0
    ≡ err refusal
unfolding run counting memory one_json unverified store find manifest_key lit decode artifact_key_of
    from_env
fails_on_broken = refl

run-Said_example :
    Said counting same scratch memory one_json tag_cipher same contents memory-IsStore broken
      refusal
      (run counting same scratch memory one_json tag_cipher same cfg unverified.id now
        (broken, tt)).1.0
run-Said_example =
    run-Said counting same scratch memory one_json tag_cipher same contents memory-IsStore cfg
      unverified.id now broken tt refusal fails_on_broken

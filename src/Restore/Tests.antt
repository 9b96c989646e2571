-- ===== src/Restore/Tests.antt =====
-- internal/restore/restore.go: a verified backup in a store in memory goes to a file.
use backwyn.Prelude.{List, ◌⊎◌, false, ◌*◌, ◌≡◌, refl, none, [], ◌∷◌, ok, err, true}
use backwyn.Prelude.Int.{ℤ, pos, ltb_ℤ}
use backwyn.Prelude.Text.{Text, lit, text_eq}
use backwyn.Time.{day}
use backwyn.Storage.Memory.{Memory, memory}
use backwyn.Storage.Memory.Assoc.{find}
use backwyn.Manifest.{Manifest, Json, no_verification, manifest_key, artifact_key_of, decode}
use backwyn.Config.{Config, from_env}
use backwyn.Pgtools.Dsn.{same_target, source_label, Urls}
use backwyn.Pgtools.Client.{count_user_tables}
use backwyn.Host.{Host}
use backwyn.Crypto.Stream.{endless, read_full, put_uint32, uint32}
use backwyn.Crypto.Cipher.{encrypt, decrypt, read_then, magic_bytes}
use backwyn.Crypto.Tag.{tag_cipher, key32, fixed_draws}
use backwyn.Artifact.Load.{load}
use backwyn.Artifact.Materialize.{hex}
use backwyn.Restore.{Options, Restored, OpenOutput, is_blank, run}
use backwyn.Host.Shelf.{shelf, on_shelf, shelf-IsHost}
use backwyn.Restore.Swept.{temps-restore_run}
use backwyn.Restore.Guarded.{run-guarded}

-- Every program works, and counts three tables.
unfoldable counting : Host (Unit {0})
counting = record {
  look_path = λ b h. none;
  exec = λ bin args h. (record { stdout = 51 ∷ 10 ∷ []; stderr = []; failure = none }, h);
  create_temp = λ p h. (ok (47 ∷ []), h);
  writer = λ p h. endless [];
  filled = λ p s h. h;
  close = λ p h. (ok tt, h);
  open_file = λ p h. (err [], h);
  remove = λ p h. h;
}

abbrev content : Text
content = 104 ∷ 105 ∷ []

abbrev sealed : Text
unfolding encrypt
sealed =
    (encrypt tag_cipher fixed_draws key32 (record { bytes = content; fault = none })
      (endless [])).1.written

abbrev stored : Manifest
unfolding hex
stored = record {
  schema_version = pos 1;
  id = lit "20260101T000000Z";
  created_at = 740_001 * day;
  source_label = lit "host/db";
  artifact_key = artifact_key_of (lit "20260101T000000Z");
  format = lit "custom";
  pg_dump_version = lit "pg_dump 17";
  plaintext_size = 2;
  encrypted_size = 42;
  plaintext_sha256 = hex content;
  verification = record no_verification { verified = true };
}

-- A decoder that knows one manifest.
unfoldable one_json : Json
unfolding stored
one_json = record { encode = λ m. m.id; decode_json = λ r. ok stored }

abbrev store : Memory
unfolding stored sealed
store = record {
  objects = (manifest_key stored.id, stored.id) ∷ (stored.artifact_key, sealed) ∷ [];
  faults = [];
}

abbrev cfg : Config
cfg = record (from_env (λ v. [])) { encryption_key = key32; verify_admin_dsn = 120 ∷ [] }

abbrev same : Text → Text
same s = s

abbrev scratch : Urls
scratch = record {
  parse_url = λ dsn. ok (record { host = dsn; path = []; with_path = λ p. p });
  equal_fold = text_eq;
}

abbrev opens : OpenOutput (Unit {0})
opens force path h = (ok tt, h)

abbrev options : Options
options = record { target_dsn = []; to_file = 102 ∷ []; force = false; allow_unverified = false }

abbrev restored : Restored
unfolding stored
restored = record { manifest = stored; path = 102 ∷ []; target_label = []; table_count = pos 0 }

restores :
    (run memory one_json tag_cipher same counting opens same scratch cfg options stored.id
      (store, tt)).0
    ≡ ok restored
unfolding run counting memory one_json stored restored store sealed find manifest_key lit decode
    artifact_key_of decrypt read_then read_full magic_bytes put_uint32 tag_cipher uint32 from_env
restores = refl

-- Into a database, on a machine with temporary files.
abbrev opens_shelf : OpenOutput (List Text)
opens_shelf force path h = (ok tt, h)

abbrev into_database : Options
into_database = record {
  target_dsn = 116 ∷ [];
  to_file = [];
  force = true;
  allow_unverified = false;
}

temps-restore_run_example :
    on_shelf
      (run memory one_json tag_cipher same
        (shelf (51 ∷ 10 ∷ []) content)
        opens_shelf
        same
        scratch
        cfg
        into_database
        stored.id
        (store, [])).1.1
      (lit "backwyn-20260101T000000Z-*.pgc")
    ≡ on_shelf [] (lit "backwyn-20260101T000000Z-*.pgc")
temps-restore_run_example =
    temps-restore_run on_shelf (shelf (51 ∷ 10 ∷ []) content) memory one_json tag_cipher same
      opens_shelf same scratch cfg into_database stored.id store []
      (lit "backwyn-20260101T000000Z-*.pgc") (shelf-IsHost (51 ∷ 10 ∷ []) content) refl

-- The target has three tables, and the restore is forced.
abbrev filled : Restored
unfolding stored source_label
filled = record {
  manifest = stored;
  path = [];
  target_label = source_label scratch (116 ∷ []);
  table_count = pos 3;
}

fills :
    (run memory one_json tag_cipher same counting opens same scratch cfg into_database stored.id
      (store, tt)).0
    ≡ ok filled
unfolding run counting memory one_json stored filled store sealed find manifest_key lit decode
    artifact_key_of decrypt read_then read_full magic_bytes put_uint32 tag_cipher uint32 from_env
    source_label
fills = refl

run-guarded_example :
    (m : Manifest) × ((load memory one_json stored.id store).0 ≡ ok m)
    × ((m.verification.verified ≡ true) ⊎ (into_database.allow_unverified ≡ true))
    × ((is_blank into_database.to_file ≡ false)
        ⊎ (((is_blank cfg.source_dsn ≡ true)
              ⊎ ((same_target scratch into_database.target_dsn cfg.source_dsn ≡ false)
                  ⊎ (into_database.force ≡ true)))
            × (n : ℤ) × ((count_user_tables counting same into_database.target_dsn tt).0 ≡ ok n)
            × ((ltb_ℤ (pos 0) n ≡ false) ⊎ (into_database.force ≡ true))))
run-guarded_example =
    run-guarded memory one_json tag_cipher same counting opens same scratch cfg into_database
      stored.id store tt filled fills

-- ===== src/Backup/Tests.antt =====
-- internal/backup/backup.go: a backup on a machine on which everything works, into a store in memory.
use backwyn.Prelude.{
  Bool-cases, inl, inr, arith, ◌*◌, ◌≡◌, refl, ap, none, [], ◌∷◌, ◌++◌, ok, err, false, true,
}
use backwyn.Prelude.Text.{Text, lit, text_eq}
use backwyn.Time.{Time, day}
use backwyn.Storage.{Reader}
use backwyn.Storage.Memory.{Memory, memory, memory-IsStore, contents}
use backwyn.Storage.Memory.Assoc.{find, insert}
use backwyn.Storage.Local.{local}
use backwyn.Storage.Local.Contract.{view_of}
use backwyn.Storage.Local.Disk.{disk, disk-IsFiles, tree, root, Disk}
use backwyn.Prelude.Text.Paths.{FilePath, join_path}
use backwyn.Storage.Confined.{within}
use backwyn.Backup.OnDisk.{is_key, run-local-IsComplete}
use backwyn.Manifest.{Manifest, Json, manifest_key, artifact_key_of}
use backwyn.Config.{Config, from_env}
use backwyn.Pgtools.Dsn.{Urls}
use backwyn.Host.{Host}
use backwyn.Crypto.Stream.{endless, write, read_full}
use backwyn.Crypto.Cipher.{encrypt, magic_bytes}
use backwyn.Crypto.Format.{IsFramed}
use backwyn.Artifact.Faithful.{materialize-ok}
use backwyn.Crypto.Tag.{tag_cipher, tag_cipher-IsAead, key32, fixed_draws, draws12}
use backwyn.Retention.Complete.{IsComplete}
use backwyn.Artifact.Materialize.{materialize, hex}
use backwyn.Backup.{Dumped, manifest_of, store_backup, run}
use backwyn.Backup.Stored.{run-IsComplete}
use backwyn.Backup.Restorable.{store_backup-restores}

abbrev dump_reader : Reader
dump_reader = record { bytes = 80 ∷ 71 ∷ 68 ∷ []; fault = none }

unfoldable working : Host (Unit {0})
working = record {
  look_path = λ b h. none;
  exec = λ bin args h. (record { stdout = lit "pg_dump 17\n"; stderr = []; failure = none }, h);
  create_temp = λ p h. (ok (lit "/tmp/x"), h);
  writer = λ p h. endless [];
  filled = λ p s h. h;
  close = λ p h. (ok tt, h);
  open_file = λ p h. (ok dump_reader, h);
  remove = λ p h. h;
}

-- Only the key is that of an encoded manifest.
unfoldable id_json : Json
id_json = record { encode = λ m. m.id; decode_json = λ r. err (lit "EOF") }

abbrev empty_store : Memory
empty_store = record { objects = []; faults = [] }

-- The second call of the store fails.
abbrev failing_store : Memory
failing_store = record { objects = []; faults = false ∷ true ∷ [] }

abbrev cfg : Config
cfg = record (from_env (λ v. [])) { encryption_key = key32 }

abbrev now : Time
now = 740_001 * day

abbrev first4 : Text → Text
first4 s = s

abbrev label : Urls
label = record { parse_url = λ s. err []; equal_fold = text_eq }

empty-IsComplete : IsComplete (contents failing_store)
unfolding find
empty-IsComplete id missing = refl

run-IsComplete_example : IsComplete (
    contents
      (run memory id_json tag_cipher fixed_draws first4 label working cfg now
        (failing_store, tt)).1.0)
run-IsComplete_example =
    run-IsComplete memory contents memory-IsStore id_json tag_cipher fixed_draws first4 label
      working cfg now failing_store tt empty-IsComplete

abbrev dumped : Dumped
dumped = record {
  path = lit "/tmp/x";
  pg_dump_version = lit "pg_dump 17";
  sum = first4 dump_reader.bytes;
  plaintext_size = 3;
  input = dump_reader;
}

abbrev sealed : Text
unfolding encrypt
sealed = (encrypt tag_cipher fixed_draws key32 dump_reader (endless [])).1.written

abbrev backed_up : Manifest
unfolding manifest_of sealed
backed_up = manifest_of memory id_json tag_cipher fixed_draws first4 label cfg now dumped sealed

backs_up :
    (store_backup memory id_json tag_cipher fixed_draws first4 label cfg now dumped empty_store).0
    ≡ ok backed_up
unfolding store_backup backed_up memory write read_full
backs_up = refl

fetched :
    (memory.get backed_up.artifact_key
      (store_backup memory id_json tag_cipher fixed_draws first4 label cfg now dumped
        empty_store).1).0
    ≡ ok (record { bytes = sealed; fault = none })
unfolding store_backup backed_up memory write read_full find insert text_eq manifest_key lit
    artifact_key_of
fetched = refl

store_backup-restores_example :
    (materialize memory tag_cipher first4 key32 backed_up
      (endless [])
      (store_backup memory id_json tag_cipher fixed_draws first4 label cfg now dumped
        empty_store).1).0
    ≡ (ok tt, endless dump_reader.bytes)
store_backup-restores_example =
    store_backup-restores memory contents memory-IsStore id_json tag_cipher fixed_draws first4 label
      cfg now dumped empty_store backed_up (record { bytes = sealed; fault = none }) []
      tag_cipher-IsAead draws12 refl backs_up fetched refl

materialized :
    (materialize memory tag_cipher first4 key32 backed_up
      (endless [])
      (store_backup memory id_json tag_cipher fixed_draws first4 label cfg now dumped
        empty_store).1).0
    ≡ (ok tt, endless dump_reader.bytes)
materialized =
    store_backup-restores memory contents memory-IsStore id_json tag_cipher fixed_draws first4 label
      cfg now dumped empty_store backed_up (record { bytes = sealed; fault = none }) []
      tag_cipher-IsAead draws12 refl backs_up fetched refl

materialize-ok_example :
    let s =
      (store_backup memory id_json tag_cipher fixed_draws first4 label cfg now dumped
        empty_store).1 in
    (rc : Reader) × (p : Text) × (c : Text) × (rest : Text) × ((memory.get backed_up.artifact_key
        s).0
      ≡ ok rc)
    × (rc.bytes ≡ magic_bytes ++ (c ++ rest))
    × IsFramed tag_cipher key32 p c
    × ((materialize memory tag_cipher first4 key32 backed_up (endless []) s).0.1.written ≡ [] ++ p)
    × (hex (first4 p) ≡ backed_up.plaintext_sha256)
materialize-ok_example =
    materialize-ok memory tag_cipher first4 key32 backed_up (endless [])
      (store_backup memory id_json tag_cipher fixed_draws first4 label cfg now dumped empty_store).1
      (ap (λ z. z.0) materialized)

abbrev blank_disk : Disk
blank_disk = record { object = none; temp = none }

blank : (q : FilePath) → tree blank_disk q ≡ none
unfolding tree
blank q = ground arith

disk-IsComplete : IsComplete (within is_key (view_of tree root) blank_disk)
unfolding view_of
disk-IsComplete id missing = elim (Bool-cases (is_key (manifest_key id))) [
  | inl kept ↦ rw kept (blank (join_path root (manifest_key id)))
  | inr left_out ↦ rw left_out refl
]

run-local-IsComplete_example : IsComplete (
    within is_key
      (view_of tree root)
      (run
        (local disk root)
        id_json
        tag_cipher
        fixed_draws
        first4
        label
        working
        cfg
        now
        (blank_disk, tt)).1.0)
run-local-IsComplete_example =
    run-local-IsComplete disk tree root id_json tag_cipher fixed_draws first4 label working cfg now
      blank_disk tt disk-IsFiles disk-IsComplete

-- ===== src/Backup.antt =====
-- internal/backup/backup.go: pg_dump, checksum, encryption, storage, and the manifest last. The
-- pipes of `Run` hand on what is written to them, and the error behind it.
pub mod Stored
pub mod Restorable
pub mod OnDisk
pub mod Swept
mod Tests
use backwyn.Prelude.{
  ℕ, Option, none, some, List, [], ◌∷◌, ◌++◌, Result, ok, err, length, if◌then◌else◌, ◌%◌, ◌^◌,
}
use backwyn.Prelude.Int.{pos}
use backwyn.Prelude.Text.{em_dash, Text, lit, join, show_ℕ}
use backwyn.Prelude.Effect.{Eff, ◌>>=◌, ◌>>◌, pure, fail, wrap}
use backwyn.Time.{Time}
use backwyn.Time.Stamp.{format_stamp}
use backwyn.Storage.{Backend, Reader}
use backwyn.Manifest.{Manifest, Json, no_verification, manifest_key, artifact_key_of}
use backwyn.Config.{Config}
use backwyn.Host.{Host}
use backwyn.Pgtools.Dsn.{Urls, source_label}
use backwyn.Pgtools.Client.{require, rls_uncovered_tables, version, dump}
use backwyn.Crypto.Stream.{Sink, endless}
use backwyn.Crypto.Cipher.{Aead, Random, Written, encrypt}
use backwyn.Artifact.Materialize.{hex}

-- What `Run` has in hand when it starts to store.
pub record Dumped : Type 0 where
  pub path : Text
  pub pg_dump_version : Text
  pub sum : Text
  pub plaintext_size : ℕ
  pub input : Reader

-- A pipe's reading end: what was written, and the error that it was closed with.
unfoldable pub piped : Written → Reader
piped (ok _, s) = record { bytes = s.written; fault = none }
piped (err e, s) = record { bytes = s.written; fault = some e }

module _ {H : Type 0} (host : Host H) (sha256 : Text → Text) where
  -- `hashFile`: the checksum, and the size as an `int64`
  unfoldable pub hash_file : Text → Eff H (Text × ℕ)
  hash_file path = do
    f ← host.open_file path
    λ h. elim f.fault [
      | some e ↦ (err e, h)
      | none ↦ (ok (sha256 f.bytes, length f.bytes % 2 ^ 64), h)
    ]

  -- The preflight of `Run`.
  unfoldable pub preflight : Config → Eff H (Unit {0})
  unfolding rls_uncovered_tables join
  preflight cfg =
      let check = (do
        uncovered ←
            wrap (λ e. lit "row security preflight: " ++ e)
              (rls_uncovered_tables host cfg.source_dsn cfg.dump_schemas)
        elim uncovered [
          | [] ↦ pure tt
          | t ∷ ts ↦ fail (
              lit "row security preflight: "
              ++ (show_ℕ (length (t ∷ ts))
                  ++ (lit " table(s) would dump incomplete under RLS: "
                      ++ (join (t ∷ ts) (lit ", ")
                          ++ (lit " (grant the backup role a read-all policy "
                              ++ (em_dash
                                  ++ (lit " see sql/backup_role_rls.sql "
                                      ++ (em_dash ++ lit " or dump with a BYPASSRLS role)"))))))))
        ]) in
      if cfg.dump_row_security then check else pure tt

  -- Where a step fails, the deferred `os.Remove(tmpPath)`.
  abbrev pub or_remove : {A : Type 0} → Text → Eff H A → Eff H A
  or_remove path m h =
      let (r, h') = m h in elim r [ err e ↦ (err e, host.remove path h') | ok a ↦ (ok a, h') ]

  -- `Run` behind `os.CreateTemp`, up to the point where it opens the dump.
  unfoldable pub fill_dump : Config → Text → Text → Eff H Dumped
  unfolding dump hash_file
  fill_dump cfg dump_version path = do
    λ h. (ok tt, (host.close path h).1)
    dump host cfg.source_dsn path cfg.dump_schemas cfg.dump_row_security
    hashed ← hash_file path
    input ← wrap (λ e. lit "open dump for encryption: " ++ e) (host.open_file path)
    pure (record {
      path = path;
      pg_dump_version = dump_version;
      sum = hashed.0;
      plaintext_size = hashed.1;
      input = input;
    })

  -- `Run` from `os.CreateTemp`.
  unfoldable pub dump_to_temp : Config → Text → Eff H Dumped
  unfolding fill_dump
  dump_to_temp cfg dump_version = do
    path ←
        wrap (λ e. lit "create temp dump file: " ++ e) (host.create_temp (lit "backwyn-dump-*.pgc"))
    or_remove path (fill_dump cfg dump_version path)

  -- `Run` up to the point where it opens the dump.
  unfoldable pub prepare : Config → Eff H Dumped
  unfolding require preflight version dump_to_temp
  prepare cfg = do
    require host (lit "pg_dump" ∷ [])
    preflight cfg
    dump_version ← version host (lit "pg_dump")
    dump_to_temp cfg dump_version

module _ {S : Type 0} (b : Backend S) (j : Json) (a : Aead) (random : Random) (sha256 : Text → Text)
    (urls : Urls) where
  -- The manifest of `Run`. The counter of the artifact's reader has counted all of it.
  unfoldable pub manifest_of : Config → Time → Dumped → Text → Manifest
  unfolding hex format_stamp source_label
  manifest_of cfg now d artifact = record {
    schema_version = pos 1;
    id = format_stamp now;
    created_at = now;
    source_label = source_label urls cfg.source_dsn;
    artifact_key = artifact_key_of (format_stamp now);
    format = lit "custom";
    pg_dump_version = d.pg_dump_version;
    plaintext_size = d.plaintext_size;
    encrypted_size = length artifact % 2 ^ 64;
    plaintext_sha256 = hex d.sum;
    verification = no_verification;
  }

  -- Behind the `Put` of the artifact.
  unfoldable pub store_manifest : Manifest → Eff S Manifest
  store_manifest m = do
    wrap (λ e. lit "store manifest: " ++ e)
        (b.put (manifest_key m.id) (record { bytes = j.encode m; fault = none }))
    pure m

  -- `Run` from where it opens the dump.
  unfoldable pub store_backup : Config → Time → Dumped → Eff S Manifest
  unfolding manifest_of store_manifest piped encrypt
  store_backup cfg now d =
      let pipe = piped (encrypt a random cfg.encryption_key d.input (endless [])) in
      let m = manifest_of cfg now d pipe.bytes in
      wrap (λ e. lit "store encrypted artifact: " ++ e) (b.put m.artifact_key pipe)
      >> store_manifest m

  -- `Run` behind the opening of the dump; the deferred `os.Remove` comes last.
  unfoldable pub after_prepare :
      {H : Type 0}
      → Host H
      → Config
      → Time
      → S
      → Result Text Dumped × H
      → Result Text Manifest × (S × H)
  unfolding store_backup
  after_prepare host cfg now s (err e, h) = (err e, (s, h))
  after_prepare host cfg now s (ok d, h) =
      let (r, s') = store_backup cfg now d s in (r, (s', host.remove d.path h))

  -- `Run`
  unfoldable pub run : {H : Type 0} → Host H → Config → Time → Eff (S × H) Manifest
  unfolding prepare after_prepare
  run host cfg now (s, h) = after_prepare host cfg now s (prepare host sha256 cfg h)

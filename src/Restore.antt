-- ===== src/Restore.antt =====
-- internal/restore/restore.go: the guards of a restore, and the restore itself.
pub mod Guarded
pub mod Swept
mod Tests
use backwyn.Prelude.{
  ℕ, Bool, true, false, not, ◌&&◌, ◌||◌, Option, none, some, [], ◌∷◌, ◌++◌, Result, ok, err,
  if◌then◌else◌,
}
use backwyn.Prelude.Int.{ℤ, pos, ltb_ℤ}
use backwyn.Prelude.Text.{Text, lit, show_ℤ}
use backwyn.Storage.{Backend}
use backwyn.Manifest.{Manifest, Json}
use backwyn.Config.{Config}
use backwyn.Host.{Host}
use backwyn.Crypto.Stream.{Sink}
use backwyn.Crypto.Cipher.{Aead}
use backwyn.Artifact.Load.{load}
use backwyn.Artifact.Materialize.{StageError, materialize, materialize_temp}
use backwyn.Verify.{stage_error}
use backwyn.Pgtools.Dsn.{Urls, same_target, source_label}
use backwyn.Pgtools.Client.{require, restore, count_user_tables}

-- `Options`
pub record Options : Type 0 where
  pub target_dsn : Text
  pub to_file : Text
  pub force : Bool
  pub allow_unverified : Bool

-- `Result`, without the time that the restore took.
pub record Restored : Type 0 where
  pub manifest : Manifest
  pub path : Text
  pub target_label : Text
  pub table_count : ℤ

abbrev pub is_blank : Text → Bool
is_blank [] = true
is_blank (c ∷ s) = false

-- The guards of `Run` on its options.
unfoldable pub option_error : Options → Option Text
option_error o =
    if is_blank o.target_dsn && is_blank o.to_file
    then some (lit "a restore target is required: pass -to <dsn> or -to-file <path>")
    else if not (is_blank o.target_dsn) && not (is_blank o.to_file)
    then some (lit "-to and -to-file are mutually exclusive")
    else none

-- The guard of `Run` on the manifest.
unfoldable pub unverified_error : Options → Text → Manifest → Option Text
unverified_error o id m =
    let reason =
      if is_blank m.verification.error
      then lit "it has not been verified yet"
      else m.verification.error in
    if not m.verification.verified && not o.allow_unverified
    then some (
        lit "backup "
        ++ (id
            ++ (lit " is not verified: "
                ++ (reason
                    ++ (lit "\nrun 'backwyn verify "
                        ++ (id
                            ++ lit "' first, or pass -allow-unverified to restore it anyway"))))))
    else none

-- The first guard of `toDatabase`.
unfoldable pub source_error : Urls → Config → Options → Option Text
unfolding same_target source_label
source_error urls cfg o =
    if not (is_blank cfg.source_dsn)
      && (same_target urls o.target_dsn cfg.source_dsn && not o.force)
    then some (
        lit "refusing to restore into the source database "
        ++ (source_label urls cfg.source_dsn
            ++ lit
                "\nrestore into a new database instead, or pass -force if overwriting the source is genuinely what you want"))
    else none

-- The second guard of `toDatabase`.
unfoldable pub occupied_error : Urls → Options → ℤ → Option Text
unfolding source_label
occupied_error urls o existing =
    if ltb_ℤ (pos 0) existing && not o.force
    then some (
        lit "refusing to restore into "
        ++ (source_label urls o.target_dsn
            ++ (lit ": it already contains "
                ++ (show_ℤ existing
                    ++ lit
                        " user table(s)\nrestore into an empty database, or pass -force to restore over its contents"))))
    else none

-- `os.OpenFile` for the output, which truncates or refuses a file that exists: its error, and whether
-- that says that the file exists.
abbrev pub OpenOutput : Type 0 → Type 0
OpenOutput H = Bool → Text → H → Result (Bool × Text) (Unit {0}) × H

-- `if ... { return nil, err }`, then `k`
unfoldable pub unless :
    {A W : Type 0} → Option Text → W → (W → Result Text A × W) → Result Text A × W
unless (some e) w k = (err e, w)
unless none w k = k w

module _ {S H : Type 0} (b : Backend S) (j : Json) (a : Aead) (sha256 : Text → Text) (host : Host H)
    (open_output : OpenOutput H) (quote : Text → Text) (urls : Urls) where
  -- `materializeToFile` behind `Materialize`.
  unfoldable pub after_written :
      Text → Manifest → Result StageError (Unit {0}) × Sink → H → Result Text (Unit {0}) × H
  unfolding stage_error
  after_written path m (err e, dst) h = (
    err (lit "restore " ++ (m.id ++ (lit " to file: " ++ stage_error e))),
    host.remove path (host.close path (host.filled path dst h)).1,
  )
  after_written path m (ok _, dst) h = host.close path (host.filled path dst h)

  -- `materializeToFile` behind `os.OpenFile`.
  unfoldable pub after_created :
      Text
      → Text
      → Manifest
      → S
      → Result (Bool × Text) (Unit {0}) × H
      → Result Text (Unit {0}) × (S × H)
  unfolding after_written materialize
  after_created path key m s (err (exists, e), h) = (
    err (
        if exists
        then path ++ lit " already exists; choose another path or pass -force to overwrite"
        else e),
    (s, h),
  )
  after_created path key m s (ok _, h) =
      let (done, s') = materialize b a sha256 key m (host.writer path h) s in
      let (r, h') = after_written path m done h in (r, (s', h'))

  -- The part of `Run` that restores to a file.
  unfoldable pub restore_to_file :
      Config → Options → Manifest → S × H → Result Text Restored × (S × H)
  unfolding after_created
  restore_to_file cfg o m (s, h) =
      let (r, w) =
        after_created o.to_file cfg.encryption_key m s (open_output o.force o.to_file h) in
      (
        elim r [
          | err e ↦ err e
          | ok _ ↦
              ok (record { manifest = m; path = o.to_file; target_label = []; table_count = pos 0 })
        ],
        w,
      )

  -- `toDatabase` behind the second count.
  unfoldable pub after_counted : Options → Manifest → Result Text ℤ × H → Result Text Restored × H
  unfolding source_label
  after_counted o m (err e, h) =
      (err (lit "restore completed but counting tables failed: " ++ e), h)
  after_counted o m (ok n, h) = (
    ok (record {
      manifest = m;
      path = [];
      target_label = source_label urls o.target_dsn;
      table_count = n;
    }),
    h,
  )

  -- `toDatabase` behind `pgtools.Restore`.
  unfoldable pub after_restored :
      Options → Manifest → Result Text Text × H → Result Text Restored × H
  unfolding after_counted count_user_tables
  after_restored o m (err e, h) = (
    err (
        lit "restore "
        ++ (m.id ++ (lit " into " ++ (source_label urls o.target_dsn ++ (lit ": " ++ e))))),
    h,
  )
  after_restored o m (ok _, h) = after_counted o m (count_user_tables host quote o.target_dsn h)

  -- `toDatabase` behind `MaterializeTemp`.
  unfoldable pub after_temp :
      Options → Manifest → ℤ → Result StageError Text × (S × H) → Result Text Restored × (S × H)
  unfolding after_restored restore stage_error
  after_temp o m existing (err e, w) =
      (err (lit "restore " ++ (m.id ++ (lit ": " ++ stage_error e))), w)
  after_temp o m existing (ok path, (s, h)) =
      let (r, h') = after_restored o m (
        restore host o.target_dsn path (record { clean = ltb_ℤ (pos 0) existing; sandbox = false })
          h) in
      (r, (s, host.remove path h'))

  -- `toDatabase` behind its last guard.
  unfoldable pub into_target :
      Config → Options → Manifest → ℤ → S × H → Result Text Restored × (S × H)
  unfolding after_temp materialize_temp
  into_target cfg o m existing w =
      after_temp o m existing (materialize_temp b a sha256 cfg.encryption_key host m w)

  -- `toDatabase` behind the first count.
  unfoldable pub after_existing :
      Config → Options → Manifest → S → Result Text ℤ × H → Result Text Restored × (S × H)
  unfolding into_target occupied_error unless
  after_existing cfg o m s (err e, h) = (
    err (
        lit "cannot inspect restore target "
        ++ (source_label urls o.target_dsn
            ++ (lit ": "
                ++ (e
                    ++ lit
                        "\nthe target database must already exist (create it with: createdb <name>)")))),
    (s, h),
  )
  after_existing cfg o m s (ok n, h) =
      unless (occupied_error urls o n) (s, h) (into_target cfg o m n)

  -- `toDatabase` behind the guard on the source.
  unfoldable pub inspect_target :
      Config → Options → Manifest → S × H → Result Text Restored × (S × H)
  unfolding after_existing
  inspect_target cfg o m (s, h) =
      after_existing cfg o m s (count_user_tables host quote o.target_dsn h)

  -- `toDatabase` behind `pgtools.Require`.
  unfoldable pub after_tools :
      Config → Options → Manifest → S → Result Text (Unit {0}) × H → Result Text Restored × (S × H)
  unfolding inspect_target source_error
  after_tools cfg o m s (err e, h) = (err e, (s, h))
  after_tools cfg o m s (ok _, h) = unless (source_error urls cfg o) (s, h) (inspect_target cfg o m)

  -- `Run` behind the guard on the manifest: `toDatabase`, or the file.
  unfoldable pub to_target :
      Bool → Config → Options → Manifest → S × H → Result Text Restored × (S × H)
  unfolding restore_to_file after_tools require
  to_target true cfg o m (s, h) =
      after_tools cfg o m s (require host (lit "pg_restore" ∷ lit "psql" ∷ []) h)
  to_target false cfg o m w = restore_to_file cfg o m w

  -- `Run` behind `artifact.Load`.
  unfoldable pub after_loaded :
      Config → Options → Text → H → Result Text Manifest × S → Result Text Restored × (S × H)
  unfolding to_target unverified_error
  after_loaded cfg o id h (err e, s) = (err e, (s, h))
  after_loaded cfg o id h (ok m, s) =
      unless (unverified_error o id m) (s, h) (to_target (is_blank o.to_file) cfg o m)

  -- `Run` behind the guards on its options.
  unfoldable pub load_backup : Config → Options → Text → S × H → Result Text Restored × (S × H)
  unfolding after_loaded load
  load_backup cfg o id (s, h) = after_loaded cfg o id h (load b j id s)

  -- `Run`
  unfoldable pub run : Config → Options → Text → S × H → Result Text Restored × (S × H)
  unfolding load_backup option_error
  run cfg o id w = unless (option_error o) w (load_backup cfg o id)

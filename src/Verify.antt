-- ===== src/Verify.antt =====
-- internal/verify/verify.go: fetch a backup, restore it into a scratch database, and record in its
-- manifest what came of it.
pub mod Checks
pub mod Verdict
pub mod Marked
pub mod Swept
mod Tests
use backwyn.Prelude.{
  Bool, true, false, Option, none, some, [], ◌∷◌, ◌++◌, Result, ok, err, if◌then◌else◌,
}
use backwyn.Prelude.Int.{ℤ}
use backwyn.Prelude.Text.{Text, lit}
use backwyn.Time.{Time}
use backwyn.Storage.{Backend}
use backwyn.Manifest.{Manifest, Verification, Json, no_verification}
use backwyn.Config.{Config}
use backwyn.Host.{Host}
use backwyn.Crypto.Cipher.{Aead}
use backwyn.Artifact.Load.{load, save}
use backwyn.Artifact.Materialize.{
  Stage, stage_fetch, stage_decrypt, stage_checksum, stage_write, StageError, materialize_temp,
}
use backwyn.Pgtools.Dsn.{Urls, with_database}
use backwyn.Pgtools.Client.{
  require, restore_list, create_database, drop_database, restore, count_user_tables, psql_query,
}

-- What `Run` returns with an error: `marked` is the manifest that it returns beside it.
pub record Failure : Type 0 where
  pub error : Text
  pub marked : Option Manifest

-- What the checks end with: the record of a backup that passed, or the text for `fail` and the
-- record so far.
abbrev pub Checked : Type 0
Checked = Result (Text × Verification) Verification

abbrev pub is_blank : Text → Bool
is_blank [] = true
is_blank (c ∷ s) = false

abbrev stage_text : Stage → Text
stage_text stage_fetch = lit "fetch"
stage_text stage_decrypt = lit "decrypt"
stage_text stage_checksum = lit "checksum"
stage_text stage_write = lit "write"

abbrev pub is_write : Stage → Bool
is_write stage_fetch = false
is_write stage_decrypt = false
is_write stage_checksum = false
is_write stage_write = true

-- `(*StageError).Error`
unfoldable pub stage_error : StageError → Text
stage_error e = stage_text e.stage ++ (lit ": " ++ e.error)

-- `if err := ...; err != nil { return fail(what, err) }`, then `k`
unfoldable pub or_fail :
    {A H : Type 0} → Text → Verification → Result Text A × H → (A → H → Checked × H) → Checked × H
or_fail what v (err e, h) k = (err (what ++ e, v), h)
or_fail what v (ok a, h) k = k a h

module _ {H : Type 0} (host : Host H) (quote : Text → Text) (urls : Urls) where
  -- The query of the configuration, unless it is empty.
  unfoldable pub queried : Bool → Config → Text → Verification → H → Checked × H
  unfolding or_fail psql_query
  queried true cfg target v h = (ok v, h)
  queried false cfg target v h =
      or_fail (lit "verify query: ") v (psql_query host target cfg.verify_query h)
        (λ _ h'. (ok v, h'))

  -- Behind the count of the tables.
  unfoldable pub after_count : Config → Text → Verification → ℤ → H → Checked × H
  unfolding queried
  after_count cfg target v count =
      queried (is_blank cfg.verify_query) cfg target (record v { table_count = count })

  -- Behind the restore.
  unfoldable pub after_restore : Config → Text → Verification → Text → H → Checked × H
  unfolding after_count count_user_tables
  after_restore cfg target v _ h =
      let v' = record v { restored = true } in
      or_fail (lit "count tables: ") v' (count_user_tables host quote target h)
        (after_count cfg target v')

  -- Behind the derivation of the target.
  unfoldable pub after_target : Config → Text → Verification → Text → H → Checked × H
  unfolding after_restore restore
  after_target cfg path v target h =
      or_fail (lit "restore into scratch db: ") v
        (restore host target path (record { clean = false; sandbox = true }) h)
        (after_restore cfg target v)

  -- What `Run` does in the scratch database.
  unfoldable pub sandbox_checks : Config → Text → Text → Verification → H → Checked × H
  unfolding after_target with_database
  sandbox_checks cfg scratch_db path v h =
      or_fail (lit "derive target dsn: ") v (with_database urls cfg.verify_admin_dsn scratch_db, h)
        (after_target cfg path v)

  -- The deferred `DropDatabase`, whose error is ignored.
  unfoldable pub dropping : Text → Text → Checked × H → Checked × H
  unfolding drop_database
  dropping admin_dsn scratch_db (r, h) = (r, (drop_database host admin_dsn scratch_db h).1)

  -- Behind the creation of the scratch database.
  unfoldable pub after_create : Config → Text → Text → Verification → Text → H → Checked × H
  unfolding sandbox_checks dropping
  after_create cfg scratch_db path v _ h =
      dropping cfg.verify_admin_dsn scratch_db (sandbox_checks cfg scratch_db path v h)

  -- Behind `RestoreList`.
  unfoldable pub after_list : Config → Text → Text → Verification → Text → H → Checked × H
  unfolding after_create create_database
  after_list cfg scratch_db path v _ h =
      let v' = record v { listable = true } in
      or_fail (lit "create scratch db: ") v'
        (create_database host cfg.verify_admin_dsn scratch_db h)
        (after_create cfg scratch_db path v')

  -- `Run` from the file with the dump to the last check.
  unfoldable pub checks : Config → Text → Text → H → Checked × H
  unfolding after_list restore_list
  checks cfg id path h =
      let v = record no_verification { checksum_ok = true } in
      or_fail (lit "pg_restore --list: ") v (restore_list host path h)
        (after_list cfg (lit "backwyn_verify_" ++ id) path v)

  module _ {S : Type 0} (b : Backend S) (j : Json) (a : Aead) (sha256 : Text → Text) where
    -- Behind the `Save` of the verified manifest.
    unfoldable pub after_save : Manifest → Result Text (Unit {0}) × S → Result Failure Manifest × S
    after_save m (err e, s) =
        (err (record { error = lit "save verified manifest: " ++ e; marked = none }), s)
    after_save m (ok _, s) = (ok m, s)

    -- The end of `Run`: `fail`, or the verified manifest.
    unfoldable pub finish : Manifest → Time → Checked → S → Result Failure Manifest × S
    unfolding save after_save
    finish m now (err (e, v)) s =
        let m' = record m { verification = record v { verified = false; error = e } } in
        let s' = (save b j m' s).1 in
        (err (record { error = lit "verification failed: " ++ e; marked = some m' }), s')
    finish m now (ok v) s =
        let m' = record m { verification = record v { verified = true; verified_at = now } } in
        after_save m' (save b j m' s)

    -- Where `MaterializeTemp` failed, in writing or otherwise.
    unfoldable pub refused : Bool → Manifest → Time → StageError → S → Result Failure Manifest × S
    unfolding finish stage_error
    refused true m now e s = (err (record { error = stage_error e; marked = none }), s)
    refused false m now e s = finish m now (err (stage_error e, no_verification)) s

    -- Behind `MaterializeTemp`. The file is removed at the end.
    unfoldable pub after_materialize_temp :
        Config
        → Text
        → Time
        → Manifest
        → Result StageError Text × (S × H)
        → Result Failure Manifest × (S × H)
    unfolding finish checks refused
    after_materialize_temp cfg id now m (err e, (s, h)) =
        let (r, s') = refused (is_write e.stage) m now e s in (r, (s', h))
    after_materialize_temp cfg id now m (ok path, (s, h)) =
        let (checked, h') = checks cfg id path h in
        let (r, s') = finish m now checked s in (r, (s', host.remove path h'))

    -- Behind `artifact.Load`.
    unfoldable pub after_load :
        Config → Text → Time → H → Result Text Manifest × S → Result Failure Manifest × (S × H)
    unfolding after_materialize_temp materialize_temp
    after_load cfg id now h (err e, s) = (err (record { error = e; marked = none }), (s, h))
    after_load cfg id now h (ok m, s) =
        let reset = record m { verification = no_verification } in
        after_materialize_temp cfg id now reset
          (materialize_temp b a sha256 cfg.encryption_key host reset (s, h))

    -- Behind `pgtools.Require`.
    unfoldable pub after_require :
        Config → Text → Time → S → Result Text (Unit {0}) × H → Result Failure Manifest × (S × H)
    unfolding after_load load
    after_require cfg id now s (err e, h) = (err (record { error = e; marked = none }), (s, h))
    after_require cfg id now s (ok _, h) =
        if is_blank cfg.verify_admin_dsn
        then (
          err (record {
            error =
                lit "BACKWYN_VERIFY_ADMIN_DSN is required to verify (the local restore sandbox)";
            marked = none;
          }),
          (s, h),
        )
        else after_load cfg id now h (load b j id s)

    -- `Run`
    unfoldable pub run : Config → Text → Time → S × H → Result Failure Manifest × (S × H)
    unfolding after_require require
    run cfg id now (s, h) =
        after_require cfg id now s (require host (lit "pg_restore" ∷ lit "psql" ∷ []) h)

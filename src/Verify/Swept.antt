-- ===== src/Verify/Swept.antt =====
-- internal/verify/verify.go: the temporary files of `Run`, the dump and the list of its contents.
use backwyn.Prelude.{
  ◌≡◌, refl, ◌∙◌, Bool, true, false, [], ◌∷◌, ◌++◌, Result, ok, err, Bool-cases, inl, inr,
}
use backwyn.Prelude.Text.{Text, lit}
use backwyn.Time.{Time}
use backwyn.Storage.{Backend}
use backwyn.Manifest.{Manifest, Verification, Json, no_verification}
use backwyn.Config.{Config}
use backwyn.Host.{Host}
use backwyn.Host.Temps.{IsHost, Same, Holds, Same-trans, remove_back}
use backwyn.Crypto.Cipher.{Aead}
use backwyn.Artifact.Load.{load}
use backwyn.Artifact.Materialize.{StageError, materialize_temp}
use backwyn.Artifact.Swept.{materialize_temp-Holds}
use backwyn.Pgtools.Dsn.{Urls, with_database}
use backwyn.Pgtools.Client.{
  require, restore_list, create_database, drop_database, restore, psql_exec, psql_query,
  count_user_tables,
}
use backwyn.Pgtools.Client.Temps.{
  require-Same, run_program-Same, psql_query-Same, count_user_tables-Same, restore-Same,
}
use backwyn.Verify.{
  Checked, is_blank, or_fail, queried, after_count, after_restore, after_target, sandbox_checks,
  dropping, after_create, after_list, checks, after_materialize_temp, after_load, after_require,
  run,
}

module _ {H : Type 0} (temps : H → Text → Bool) (host : Host H) (laws : IsHost host temps)
    (quote : Text → Text) (urls : Urls) where
  or_fail-Same :
      {A : Type 0} (what : Text) (v : Verification) (h : H) (x : Result Text A × H)
      (k : A → H → Checked × H)
      → Same temps h x.1
      → ((y : A) (h' : H) → Same temps h' (k y h').1)
      → Same temps h (or_fail what v x k).1
  unfolding or_fail
  or_fail-Same what v h (err e, h') k same step = same
  or_fail-Same what v h (ok y, h') k same step = Same-trans temps same (step y h')

  queried-Same :
      (blank : Bool) (cfg : Config) (target : Text) (v : Verification) (h : H)
      → Same temps h (queried host quote urls blank cfg target v h).1
  unfolding queried
  queried-Same true cfg target v h = λ q. refl
  queried-Same false cfg target v h =
      or_fail-Same (lit "verify query: ") v h (psql_query host target cfg.verify_query h)
        (λ _ h'. (ok v, h')) (psql_query-Same temps host laws target cfg.verify_query h)
        (λ _ h' q. refl)

  after_restore-Same :
      (cfg : Config) (target : Text) (v : Verification) (out : Text) (h : H)
      → Same temps h (after_restore host quote urls cfg target v out h).1
  unfolding after_restore after_count
  after_restore-Same cfg target v out h =
      let v' : Verification = record v { restored = true } in
      or_fail-Same (lit "count tables: ") v' h (count_user_tables host quote target h)
        (after_count host quote urls cfg target v')
        (count_user_tables-Same temps host laws quote target h)
        (λ n h'. queried-Same (is_blank cfg.verify_query) cfg target _ h')

  after_target-Same :
      (cfg : Config) (path : Text) (v : Verification) (target : Text) (h : H)
      → Same temps h (after_target host quote urls cfg path v target h).1
  unfolding after_target
  after_target-Same cfg path v target h =
      or_fail-Same (lit "restore into scratch db: ") v h
        (restore host target path (record { clean = false; sandbox = true }) h)
        (after_restore host quote urls cfg target v)
        (restore-Same temps host laws target path (record { clean = false; sandbox = true }) h)
        (after_restore-Same cfg target v)

  after_create-Same :
      (cfg : Config) (scratch_db path : Text) (v : Verification) (out : Text) (h : H)
      → Same temps h (after_create host quote urls cfg scratch_db path v out h).1
  unfolding after_create dropping sandbox_checks drop_database psql_exec
  after_create-Same cfg scratch_db path v out h =
      Same-trans temps
        (or_fail-Same (lit "derive target dsn: ") v h
          (with_database urls cfg.verify_admin_dsn scratch_db, h)
          (after_target host quote urls cfg path v) (λ q. refl) (after_target-Same cfg path v))
        (run_program-Same temps host laws _ _ _
          (sandbox_checks host quote urls cfg scratch_db path v h).1)

  after_list-Same :
      (cfg : Config) (scratch_db path : Text) (v : Verification) (out : Text) (h : H)
      → Same temps h (after_list host quote urls cfg scratch_db path v out h).1
  unfolding after_list create_database psql_exec
  after_list-Same cfg scratch_db path v out h =
      let v' : Verification = record v { listable = true } in
      or_fail-Same (lit "create scratch db: ") v' h
        (create_database host cfg.verify_admin_dsn scratch_db h)
        (after_create host quote urls cfg scratch_db path v')
        (run_program-Same temps host laws _ _ _ h) (after_create-Same cfg scratch_db path v')

  checks-Same :
      (cfg : Config) (id path : Text) (h : H)
      → Same temps h (checks host quote urls cfg id path h).1
  unfolding checks restore_list
  checks-Same cfg id path h =
      let v : Verification = record no_verification { checksum_ok = true } in
      or_fail-Same (lit "pg_restore --list: ") v h (restore_list host path h)
        (after_list host quote urls cfg (lit "backwyn_verify_" ++ id) path v)
        (run_program-Same temps host laws _ _ _ h)
        (after_list-Same cfg (lit "backwyn_verify_" ++ id) path v)

  module _ {S : Type 0} (b : Backend S) (j : Json) (a : Aead) (sha256 : Text → Text) where
    after_temp-Same :
        (cfg : Config) (id : Text) (now : Time) (m : Manifest)
        (x : Result StageError Text × (S × H)) (h : H)
        → Holds temps (λ p. p) h (x.0, x.1.1)
        → Same temps h (after_materialize_temp host quote urls b j a sha256 cfg id now m x).1.1
    unfolding after_materialize_temp
    after_temp-Same cfg id now m (err e, (s, h')) h held = held
    after_temp-Same cfg id now m (ok path, (s, h')) h held =
        remove_back temps host laws path held (checks-Same cfg id path h')

    after_load-Same :
        (cfg : Config) (id : Text) (now : Time) (h : H) (x : Result Text Manifest × S)
        → Same temps h (after_load host quote urls b j a sha256 cfg id now h x).1.1
    unfolding after_load
    after_load-Same cfg id now h (err e, s) q = refl
    after_load-Same cfg id now h (ok m, s) q =
        let reset : Manifest = record m { verification = no_verification } in
        after_temp-Same cfg id now reset
          (materialize_temp b a sha256 cfg.encryption_key host reset (s, h)) h
          (materialize_temp-Holds temps host laws b a sha256 cfg.encryption_key reset s h) q

    after_require-Same :
        (cfg : Config) (id : Text) (now : Time) (s : S) (h : H) (x : Result Text (Unit {0}) × H)
        → Same temps h x.1
        → Same temps h (after_require host quote urls b j a sha256 cfg id now s x).1.1
    unfolding after_require
    after_require-Same cfg id now s h (err e, h') same q = same q
    after_require-Same cfg id now s h (ok _, h') same q =
        elim (Bool-cases (is_blank cfg.verify_admin_dsn)) [
          | inl blank ↦ rw blank (same q)
          | inr given ↦ rw given (after_load-Same cfg id now h' (load b j id s) q ∙ same q)
        ]

-- A verification leaves no file with the plain dump, and no list of its contents, behind, and takes
-- away no other temporary file, whichever step fails, on a machine that keeps the promises of `os`.
pub temps-verify_run :
    {S H : Type 0} (temps : H → Text → Bool) (host : Host H) (quote : Text → Text) (urls : Urls)
    (b : Backend S) (j : Json) (a : Aead) (sha256 : Text → Text) (cfg : Config) (id : Text)
    (now : Time) (s : S) (h : H) (q : Text)
    → IsHost host temps
    → temps (run host quote urls b j a sha256 cfg id now (s, h)).1.1 q ≡ temps h q
unfolding run
temps-verify_run temps host quote urls b j a sha256 cfg id now s h q laws =
    after_require-Same temps host laws quote urls b j a sha256 cfg id now s h
      (require host (lit "pg_restore" ∷ lit "psql" ∷ []) h)
      (require-Same temps host laws (lit "pg_restore" ∷ lit "psql" ∷ []) h) q

-- ===== src/Verify/Checks.antt =====
-- internal/verify/verify.go: what the checks of a verification that passes have recorded.
use mathlib.Core.Path.{subst}
use backwyn.Prelude.{
  ◌≡◌, ◌⊎◌, inl, inr, sym, ap, refl, Bool, true, false, [], ◌++◌, Result, ok, err, arith,
}
use backwyn.Prelude.Int.{ℤ}
use backwyn.Prelude.Text.{Text, lit}
use backwyn.Manifest.{Verification, no_verification}
use backwyn.Config.{Config}
use backwyn.Host.{Host}
use backwyn.Pgtools.Dsn.{Urls, with_database}
use backwyn.Pgtools.Client.{restore_list, create_database, restore, count_user_tables, psql_query}
use backwyn.Verify.{
  Checked, or_fail, is_blank, queried, after_count, after_restore, after_target, sandbox_checks,
  dropping, after_create, after_list, checks,
}

-- A record of checks that have all passed.
unfoldable pub IsClean : Verification → Type 0
IsClean v = (v.checksum_ok ≡ true) × (v.listable ≡ true) × (v.restored ≡ true) × (v.error ≡ [])

-- A step that passes has succeeded, with what comes behind it.
or_fail-ok :
    {A H : Type 0} (what : Text) (v x : Verification) (r : Result Text A × H)
    (k : A → H → Checked × H)
    → (or_fail what v r k).0 ≡ ok x
    → (a : A) × (h : H) × (r ≡ (ok a, h)) × ((k a h).0 ≡ ok x)
unfolding or_fail
or_fail-ok what v x (err e, h) k passed = absurd (ground arith)
or_fail-ok what v x (ok a, h) k passed = (a, h, refl, passed)

module _ {H : Type 0} (host : Host H) (quote : Text → Text) (urls : Urls) where
  -- Behind a restore: the count of the tables, and the query of the configuration if there is one,
  -- have succeeded.
  abbrev Counted : Config → Text → H → ℤ → Type 0
  Counted cfg target h n =
      (h' : H) × (count_user_tables host quote target h ≡ (ok n, h'))
      × ((is_blank cfg.verify_query ≡ true)
          ⊎ ((rows : Text) × (h2 : H) × (psql_query host target cfg.verify_query h'
                ≡ (ok rows, h2))))

  -- In a scratch database that exists: its connection string could be built, the archive was restored
  -- into it, and the rest succeeded.
  abbrev Restores : Config → Text → Text → H → ℤ → Type 0
  Restores cfg scratch_db path h n =
      (target : Text) × (with_database urls cfg.verify_admin_dsn scratch_db ≡ ok target)
      × (out : Text) × (h' : H) × (restore host target path
            (record { clean = false; sandbox = true }) h
          ≡ (ok out, h'))
      × Counted cfg target h' n

  -- Every check of `Run` on the dump in `path`, one behind the other, has succeeded: its table of
  -- contents could be listed, the scratch database was created, and the dump was restored there, with
  -- `n` tables.
  abbrev pub Passed : Config → Text → Text → H → ℤ → Type 0
  Passed cfg id path h n =
      (listing : Text) × (h1 : H) × (restore_list host path h ≡ (ok listing, h1))
      × (made : Text) × (h2 : H) × (create_database host cfg.verify_admin_dsn
            (lit "backwyn_verify_" ++ id) h1
          ≡ (ok made, h2))
      × Restores cfg (lit "backwyn_verify_" ++ id) path h2 n

  queried-ok :
      (empty : Bool) (cfg : Config) (target : Text) (v x : Verification) (h : H)
      → (queried host quote urls empty cfg target v h).0 ≡ ok x
      → (v ≡ x)
        × ((empty ≡ true)
            ⊎ ((rows : Text) × (h2 : H) × (psql_query host target cfg.verify_query h
                  ≡ (ok rows, h2))))
  unfolding queried
  queried-ok true cfg target v x h passed = (ground arith, inl refl)
  queried-ok false cfg target v x h passed =
      let (rows, h2, ran, p) =
        or_fail-ok (lit "verify query: ") v x (psql_query host target cfg.verify_query h)
          (λ _ h'. (ok v, h')) passed in
      (ground arith, inr (rows, h2, ran))

  after_restore-ok :
      (cfg : Config) (target out : Text) (v x : Verification) (h : H)
      → IsClean (record v { restored = true })
      → (after_restore host quote urls cfg target v out h).0 ≡ ok x
      → IsClean x × Counted cfg target h x.table_count
  unfolding after_restore after_count IsClean
  after_restore-ok cfg target out v x h clean passed =
      let v' = record v { restored = true } in
      let (n, h', counted, p) =
        or_fail-ok (lit "count tables: ") v' x (count_user_tables host quote target h)
          (after_count host quote urls cfg target v') passed in
      let (same, rows) =
        queried-ok (is_blank cfg.verify_query) cfg target (record v' { table_count = n }) x h' p in
      subst (λ z. IsClean z × Counted cfg target h z.table_count) same (clean, (h', counted, rows))

  sandbox_checks-ok :
      (cfg : Config) (scratch_db path : Text) (v x : Verification) (h : H)
      → IsClean (record v { restored = true })
      → (sandbox_checks host quote urls cfg scratch_db path v h).0 ≡ ok x
      → IsClean x × Restores cfg scratch_db path h x.table_count
  unfolding sandbox_checks after_target
  sandbox_checks-ok cfg scratch_db path v x h clean passed =
      let (target, h1, derived, p1) =
        or_fail-ok (lit "derive target dsn: ") v x
          (with_database urls cfg.verify_admin_dsn scratch_db, h)
          (after_target host quote urls cfg path v) passed in
      let (out, h2, restored, p2) =
        or_fail-ok (lit "restore into scratch db: ") v x
          (restore host target path (record { clean = false; sandbox = true }) h1)
          (after_restore host quote urls cfg target v) p1 in
      let (clean', counted) = after_restore-ok cfg target out v x h2 clean p2 in
      let here = ap (λ z. z.1) derived in
      (
        clean',
        (
          target,
          ap (λ z. z.0) derived,
          out,
          h2,
          subst
              (λ z.
                restore host target path (record { clean = false; sandbox = true }) z
                ≡ (ok out, h2))
              (sym here) restored,
          counted,
        ),
      )

  pub checks-ok :
      (cfg : Config) (id path : Text) (x : Verification) (h : H)
      → (checks host quote urls cfg id path h).0 ≡ ok x
      → IsClean x × Passed cfg id path h x.table_count
  unfolding checks after_list after_create dropping IsClean
  checks-ok cfg id path x h passed =
      let v = record no_verification { checksum_ok = true } in
      let scratch_db = lit "backwyn_verify_" ++ id in
      let (listing, h1, listed, p1) =
        or_fail-ok (lit "pg_restore --list: ") v x (restore_list host path h)
          (after_list host quote urls cfg scratch_db path v) passed in
      let v' = record v { listable = true } in
      let (made, h2, created, p2) =
        or_fail-ok (lit "create scratch db: ") v' x
          (create_database host cfg.verify_admin_dsn scratch_db h1)
          (after_create host quote urls cfg scratch_db path v') p1 in
      let (clean, restores) =
        sandbox_checks-ok cfg scratch_db path v' x h2 (refl, refl, refl, refl) p2 in
      (clean, (listing, h1, listed, made, h2, created, restores))

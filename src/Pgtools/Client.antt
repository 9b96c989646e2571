-- ===== src/Pgtools/Client.antt =====
-- internal/pgtools/pgtools.go: the functions that run a client program.
pub mod Temps
use backwyn.Prelude.{
  ℕ, zero, suc, ◌+◌, ◌-◌, ◌*◌, Bool, true, false, ◌&&◌, Option, none, some, List, [], ◌∷◌, ◌++◌,
  map, Result, ok, err, ◌==◌, leb, if◌then◌else◌,
}
use backwyn.Prelude.Int.{ℤ, pos, negsuc}
use backwyn.Prelude.Text.{Text, lit, join}
use backwyn.Prelude.Text.Split.{split, trim_space}
use backwyn.Prelude.Effect.{Eff, ◌>>=◌, pure, wrap}
use backwyn.Host.{Host}
use backwyn.Crypto.Stream.{write}
use backwyn.Pgtools.Sql.{quote_ident, quote_literal, clean_idents, dump_args, filter_sandbox_toc}

-- `RestoreOptions`
pub record RestoreOptions : Type 0 where
  pub clean : Bool
  pub sandbox : Bool

-- The query of `CountUserTables`.
unfoldable tables_query : Text
tables_query =
    lit "SELECT count(*) FROM information_schema.tables "
    ++ (lit "WHERE table_type = 'BASE TABLE' "
        ++ lit "AND table_schema NOT IN ('pg_catalog', 'information_schema')")

-- The query of `RLSUncoveredTables` before and behind the scope.
unfoldable rls_query_front : Text
rls_query_front =
    lit "SELECT n.nspname || '.' || c.relname\n"
    ++ (lit "FROM pg_class c\n"
        ++ (lit "JOIN pg_namespace n ON n.oid = c.relnamespace\n"
            ++ (lit "WHERE c.relkind IN ('r', 'p')\n"
                ++ (lit "  AND c.relrowsecurity\n"
                    ++ (lit "  AND n.nspname NOT IN ('pg_catalog', 'information_schema') ")))))

unfoldable rls_query_back : Text
rls_query_back =
    lit "\n"
    ++ (lit "  AND (\n"
        ++ (lit "    NOT EXISTS (\n"
            ++ (lit "      SELECT 1 FROM pg_policy p\n"
                ++ (lit "      WHERE p.polrelid = c.oid\n"
                    ++ (lit "        AND p.polpermissive\n"
                        ++ (lit "        AND p.polcmd IN ('r', '*')\n"
                            ++ (lit "        AND pg_get_expr(p.polqual, p.polrelid) = 'true'\n"
                                ++ (lit "        AND (p.polroles = '{0}'::oid[] OR EXISTS (\n"
                                    ++ (lit
                                          "          SELECT 1 FROM unnest(p.polroles) r WHERE pg_has_role(current_user, r, 'USAGE')))\n"
                                        ++ (lit "    )\n"
                                            ++ (lit "    OR EXISTS (\n"
                                                ++ (lit "      SELECT 1 FROM pg_policy p\n"
                                                    ++ (lit "      WHERE p.polrelid = c.oid\n"
                                                        ++ (lit "        AND NOT p.polpermissive\n"
                                                            ++ (lit
                                                            "        AND p.polcmd IN ('r', '*')\n"
                                                            ++ (lit
                                                            "        AND pg_get_expr(p.polqual, p.polrelid) <> 'true'\n"
                                                            ++ (lit
                                                            "        AND (p.polroles = '{0}'::oid[] OR EXISTS (\n"
                                                            ++ (lit
                                                            "          SELECT 1 FROM unnest(p.polroles) r WHERE pg_has_role(current_user, r, 'USAGE')))\n"
                                                            ++ (lit "    )\n"
                                                            ++ (lit "  )\n"
                                                            ++ (lit
                                                            "ORDER BY 1")))))))))))))))))))))

-- The scope of `RLSUncoveredTables`.
unfoldable pub rls_scope : List Text → Text
unfolding clean_idents quote_literal join
rls_scope schemas = elim (clean_idents schemas) [
  | [] ↦ []
  | c ∷ clean ↦
      lit "AND n.nspname IN (" ++ (join (map quote_literal (c ∷ clean)) (lit ", ") ++ lit ") ")
]

abbrev is_blank : Text → Bool
is_blank [] = true
is_blank (c ∷ s) = false

-- The lines of an output without the blank ones.
unfoldable pub lines_of : List Text → List Text
unfolding trim_space
lines_of [] = []
lines_of (l ∷ lines) =
    let rest = lines_of lines in if is_blank (trim_space l) then rest else trim_space l ∷ rest

digits : ℕ → Text → Option ℕ
digits n [] = some n
digits n (c ∷ s) =
    let rest = digits (n * 10 + (c - 48)) s in if leb 48 c && leb c 57 then rest else none

unsigned : Text → Option ℕ
unfolding digits
unsigned [] = none
unsigned (c ∷ s) = digits 0 (c ∷ s)

abbrev in_range : ℕ → ℤ → Option ℕ → Result Text ℤ
in_range most n none = err (lit "invalid syntax")
in_range most n (some m) = if leb m most then ok n else err (lit "value out of range")

abbrev minus : Option ℕ → ℤ
minus none = pos 0
minus (some zero) = pos 0
minus (some (suc m)) = negsuc m

abbrev plus : Option ℕ → ℤ
plus none = pos 0
plus (some m) = pos m

-- `strconv.Atoi`, with the reason where it fails.
unfoldable pub atoi : Text → Result Text ℤ
unfolding unsigned
atoi [] = err (lit "invalid syntax")
atoi (c ∷ rest) =
    let negative = in_range 9_223_372_036_854_775_808 (minus (unsigned rest)) (unsigned rest) in
    let signless = unsigned (if c == 43 then rest else c ∷ rest) in
    if c == 45 then negative else in_range 9_223_372_036_854_775_807 (plus signless) signless

module _ {H : Type 0} (host : Host H) where
  -- The loop of `Require`.
  unfoldable pub missing_bins : List Text → H → List Text
  missing_bins [] h = []
  missing_bins (b ∷ bins) h =
      let rest = missing_bins bins h in
      elim (host.look_path b h) [ none ↦ rest | some e ↦ b ∷ rest ]

  -- `Require`
  unfoldable pub require : List Text → Eff H (Unit {0})
  unfolding missing_bins join
  require bins h = elim (missing_bins bins h) [
    | [] ↦ (ok tt, h)
    | b ∷ missing ↦ (
      err (
          lit "required PostgreSQL client tools not found on PATH: "
          ++ join (b ∷ missing) (lit ", ")),
      h,
    )
  ]

  -- `exec.CommandContext(...).Run()` with both outputs kept; `what` starts the error.
  unfoldable pub run_program : Text → Text → List Text → Eff H Text
  unfolding trim_space
  run_program what bin args h =
      let (ran, h') = host.exec bin args h in
      elim ran.failure [
        | none ↦ (ok ran.stdout, h')
        | some e ↦ (err (what ++ (e ++ (lit ": " ++ trim_space ran.stderr))), h')
      ]

  -- `Version`
  unfoldable pub version : Text → Eff H Text
  unfolding trim_space
  version bin h =
      let (ran, h') = host.exec bin (lit "--version" ∷ []) h in
      elim ran.failure [
        | none ↦ (ok (trim_space ran.stdout), h')
        | some e ↦ (err (bin ++ (lit " --version: " ++ e)), h')
      ]

  -- `Dump`
  unfoldable pub dump : Text → Text → List Text → Bool → Eff H Text
  unfolding run_program dump_args
  dump dsn out_path schemas row_security =
      run_program (lit "pg_dump failed: ") (lit "pg_dump")
        (dump_args dsn out_path schemas row_security)

  -- `psqlExec`
  unfoldable pub psql_exec : Text → Text → Eff H Text
  unfolding run_program
  psql_exec dsn sql =
      run_program (lit "psql exec failed: ") (lit "psql")
        (lit "--dbname" ∷ dsn ∷ lit "-v" ∷ lit "ON_ERROR_STOP=1" ∷ lit "-c" ∷ sql ∷ [])

  -- `psqlQuery`
  unfoldable pub psql_query : Text → Text → Eff H Text
  unfolding run_program
  psql_query dsn sql = run_program (lit "psql query failed: ") (lit "psql") (
      lit "--dbname"
      ∷ dsn
      ∷ lit "-t"
      ∷ lit "-A"
      ∷ lit "-v"
      ∷ lit "ON_ERROR_STOP=1"
      ∷ lit "-c"
      ∷ sql
      ∷ [])

  -- `RLSUncoveredTables`
  unfoldable pub rls_uncovered_tables : Text → List Text → Eff H (List Text)
  unfolding psql_query rls_query_front rls_query_back rls_scope lines_of split
  rls_uncovered_tables dsn schemas = do
    out ← psql_query dsn (rls_query_front ++ (rls_scope schemas ++ rls_query_back))
    pure (lines_of (split out 10))

  -- `RestoreList`
  unfoldable pub restore_list : Text → Eff H Text
  unfolding run_program
  restore_list archive_path =
      run_program (lit "pg_restore --list failed: ") (lit "pg_restore")
        (lit "--list" ∷ archive_path ∷ [])

  -- `CreateDatabase`
  unfoldable pub create_database : Text → Text → Eff H Text
  unfolding psql_exec quote_ident
  create_database admin_dsn name = psql_exec admin_dsn (lit "CREATE DATABASE " ++ quote_ident name)

  -- `DropDatabase`
  unfoldable pub drop_database : Text → Text → Eff H Text
  unfolding psql_exec quote_ident
  drop_database admin_dsn name =
      psql_exec admin_dsn
        (lit "DROP DATABASE IF EXISTS " ++ (quote_ident name ++ lit " WITH (FORCE)"))

  -- `CountUserTables`; `quote` is `%q`.
  unfoldable pub count_user_tables : (Text → Text) → Text → Eff H ℤ
  unfolding psql_query tables_query atoi trim_space
  count_user_tables quote dsn = do
    out ← psql_query dsn tables_query
    λ h. elim (atoi (trim_space out)) [
      | ok n ↦ (ok n, h)
      | err e ↦ (err (lit "parse table count " ++ (quote out ++ (lit ": " ++ e))), h)
    ]

  -- `os.Remove(path)`, whose error is ignored.
  abbrev pub removing : {A : Type 0} → Text → Result Text A × H → Result Text A × H
  removing path (r, h) = (r, host.remove path h)

  -- The end of `sandboxTOC`: what the write of the list and the `Close` gave.
  unfoldable pub after_list_written :
      Text → Result Text (Unit {0}) → Result Text (Unit {0}) → H → Result Text Text × H
  after_list_written path (err e) closed h =
      removing path (err (lit "write toc list file: " ++ e), h)
  after_list_written path (ok _) (err e) h =
      removing path (err (lit "close toc list file: " ++ e), h)
  after_list_written path (ok _) (ok _) h = (ok path, h)

  -- `sandboxTOC` behind `os.CreateTemp`.
  unfoldable pub write_list : Text → Text → Eff H Text
  unfolding after_list_written filter_sandbox_toc write
  write_list toc path h =
      let (r, sink) = write (filter_sandbox_toc toc) (host.writer path h) in
      let (closed, h') = host.close path (host.filled path sink h) in
      after_list_written path r closed h'

  -- `sandboxTOC`: the path of the filtered list.
  unfoldable pub sandbox_toc : Text → Eff H Text
  unfolding restore_list write_list
  sandbox_toc archive_path = do
    toc ← restore_list archive_path
    path ←
        wrap (λ e. lit "create toc list file: " ++ e) (host.create_temp (lit "backwyn-toc-*.list"))
    write_list toc path

  -- Behind `sandboxTOC`: `pg_restore` with the list, which is then removed.
  unfoldable pub with_list : (List Text → Eff H Text) → Result Text Text × H → Result Text Text × H
  with_list run (err e, h) = (err e, h)
  with_list run (ok path, h) = removing path (run (lit "--use-list" ∷ path ∷ []) h)

  -- `Restore`
  unfoldable pub restore : Text → Text → RestoreOptions → Eff H Text
  unfolding run_program sandbox_toc with_list
  restore target_dsn archive_path opts h =
      let front =
        (lit "--no-owner" ∷ lit "--no-privileges" ∷ [])
        ++ (if opts.clean then lit "--clean" ∷ lit "--if-exists" ∷ [] else []) in
      let back = lit "--dbname" ∷ target_dsn ∷ archive_path ∷ [] in
      let run = (λ (list_args : List Text).
        run_program (lit "pg_restore failed: ") (lit "pg_restore")
          (front ++ (list_args ++ back))) in
      if opts.sandbox then with_list run (sandbox_toc archive_path h) else run [] h

-- ===== src/Pgtools/Client/Temps.antt =====
-- internal/pgtools/pgtools.go: what the client programs leave of the temporary files.
use backwyn.Prelude.{
  ◌≡◌, refl, ◌∙◌, Bool, Bool-cases, inl, inr, List, [], ◌∷◌, ◌++◌, Result, ok, err, arith,
  if◌then◌else◌,
}
use backwyn.Prelude.Int.{ℤ}
use backwyn.Prelude.Text.{Text, lit}
use backwyn.Prelude.Text.Split.{trim_space}
use backwyn.Prelude.Effect.{Eff}
use backwyn.Crypto.Stream.{write}
use backwyn.Host.{Host}
use backwyn.Host.Temps.{
  IsHost, Same, Took, after-Same, remove_back, Holds, after-Holds, create_temp-Holds,
}
use backwyn.Pgtools.Sql.{filter_sandbox_toc}
use backwyn.Pgtools.Client.{
  RestoreOptions, require, run_program, version, rls_uncovered_tables, psql_query, tables_query,
  atoi, restore_list, count_user_tables, after_list_written, write_list, sandbox_toc, with_list,
  restore,
}

-- `Require` only looks.
pub require-state :
    {H : Type 0} (host : Host H) (bins : List Text) (h : H) → (require host bins h).1 ≡ h
unfolding require
require-state host bins h = ground arith

module _ {H : Type 0} (temps : H → Text → Bool) (host : Host H) (laws : IsHost host temps) where
  pub require-Same : (bins : List Text) (h : H) → Same temps h (require host bins h).1
  unfolding require
  require-Same bins h q = ground arith

  pub run_program-Same :
      (what bin : Text) (args : List Text) (h : H)
      → Same temps h (run_program host what bin args h).1
  unfolding run_program
  run_program-Same what bin args h q = ground (arith, laws.exec_kept bin args h q)

  pub version-Same : (bin : Text) (h : H) → Same temps h (version host bin h).1
  unfolding version
  version-Same bin h q = ground (arith, laws.exec_kept bin (lit "--version" ∷ []) h q)

  pub psql_query-Same : (dsn sql : Text) (h : H) → Same temps h (psql_query host dsn sql h).1
  unfolding psql_query
  psql_query-Same dsn sql h = run_program-Same _ _ _ h

  pub rls_uncovered_tables-Same :
      (dsn : Text) (schemas : List Text) (h : H)
      → Same temps h (rls_uncovered_tables host dsn schemas h).1
  unfolding rls_uncovered_tables psql_query
  rls_uncovered_tables-Same dsn schemas h =
      after-Same temps h _ _ (run_program-Same _ _ _ h) (λ a h' q. refl)

  pub count_user_tables-Same :
      (quote : Text → Text) (dsn : Text) (h : H)
      → Same temps h (count_user_tables host quote dsn h).1
  unfolding count_user_tables
  count_user_tables-Same quote dsn h =
      let parse : Text → H → Result Text ℤ × H = (λ out h'. elim (atoi (trim_space out)) [
        | ok n ↦ (ok n, h')
        | err e ↦ (err (lit "parse table count " ++ (quote out ++ (lit ": " ++ e))), h')
      ]) in
      after-Same temps h (psql_query host dsn tables_query h) parse
        (psql_query-Same dsn tables_query h) (λ out h' q. ground arith)

  after_list_written-Holds :
      (path : Text) (written closed : Result Text (Unit {0})) (h h1 h2 : H)
      → Took temps path h h1
      → Same temps h1 h2
      → Holds temps (λ path. path) h (after_list_written host path written closed h2)
  unfolding after_list_written
  after_list_written-Holds path (err e) closed h h1 h2 took same =
      remove_back temps host laws path took same
  after_list_written-Holds path (ok _) (err e) h h1 h2 took same =
      remove_back temps host laws path took same
  after_list_written-Holds path (ok _) (ok _) h h1 h2 took same = (took.0, λ q. same q ∙ took.1 q)

  write_list-Holds :
      (toc path : Text) (h h1 : H)
      → Took temps path h h1
      → Holds temps (λ path. path) h (write_list host toc path h1)
  unfolding write_list
  write_list-Holds toc path h h1 took =
      let (r, sink) = write (filter_sandbox_toc toc) (host.writer path h1) in
      after_list_written-Holds path r (host.close path (host.filled path sink h1)).0 h h1
        (host.close path (host.filled path sink h1)).1 took
        (λ q. laws.close_kept path (host.filled path sink h1) q ∙ laws.filled_kept path sink h1 q)

  sandbox_toc-Holds :
      (archive_path : Text) (h : H) → Holds temps (λ path. path) h (sandbox_toc host archive_path h)
  unfolding sandbox_toc restore_list
  sandbox_toc-Holds archive_path h =
      after-Holds temps (λ path. path) h _ _ (run_program-Same _ _ _ h)
        (λ toc h'.
          create_temp-Holds temps host laws (λ path. path) _ _ h' (write_list host toc)
            (λ path h1. write_list-Holds toc path h' h1))

  with_list-Same :
      (run : List Text → Eff H Text) (h : H) (x : Result Text Text × H)
      → ((args : List Text) (h' : H) → Same temps h' (run args h').1)
      → Holds temps (λ path. path) h x
      → Same temps h (with_list host run x).1
  unfolding with_list
  with_list-Same run h (err e, h') keeps held = held
  with_list-Same run h (ok path, h') keeps held =
      remove_back temps host laws path held (keeps (lit "--use-list" ∷ path ∷ []) h')

  -- `Restore` leaves no list of the contents behind, whatever fails.
  pub restore-Same :
      (target_dsn archive_path : Text) (opts : RestoreOptions) (h : H)
      → Same temps h (restore host target_dsn archive_path opts h).1
  unfolding restore
  restore-Same target_dsn archive_path opts h =
      let args : List Text → List Text = (λ list_args.
        ((lit "--no-owner" ∷ lit "--no-privileges" ∷ [])
          ++ (if opts.clean then lit "--clean" ∷ lit "--if-exists" ∷ [] else []))
        ++ (list_args ++ lit "--dbname" ∷ target_dsn ∷ archive_path ∷ [])) in
      let run = (λ (list_args : List Text).
        run_program host (lit "pg_restore failed: ") (lit "pg_restore") (args list_args)) in
      elim (Bool-cases opts.sandbox) [
        | inl sandboxed ↦ rw sandboxed (
            with_list-Same run h (sandbox_toc host archive_path h)
              (λ list_args h'. run_program-Same _ _ (args list_args) h')
              (sandbox_toc-Holds archive_path h))
        | inr plain ↦ rw plain (run_program-Same _ _ (args []) h)
      ]

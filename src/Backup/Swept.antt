-- ===== src/Backup/Swept.antt =====
-- internal/backup/backup.go: the temporary file with the dump, in `Run`.
use backwyn.Prelude.{
  ◌≡◌, refl, Bool, [], ◌∷◌, ◌++◌, Result, ok, err, arith, ℕ, ◌%◌, ◌^◌, length, none, some,
}
use backwyn.Prelude.Text.{Text, lit}
use backwyn.Prelude.Effect.{after, reworded, pure, ◌>>=◌, ◌>>◌}
use backwyn.Time.{Time}
use backwyn.Config.{Config}
use backwyn.Storage.{Backend, Reader}
use backwyn.Manifest.{Json}
use backwyn.Crypto.Cipher.{Aead, Random}
use backwyn.Host.{Host}
use backwyn.Host.Temps.{
  IsHost, Same, Stays, Holds, after-Same, after-Stays, reworded-Same, after-Holds,
  create_temp-Holds, or_remove-Holds, remove_back,
}
use backwyn.Pgtools.Dsn.{Urls}
use backwyn.Pgtools.Client.{require, version, rls_uncovered_tables, dump}
use backwyn.Pgtools.Client.Temps.{
  require-Same, version-Same, run_program-Same, rls_uncovered_tables-Same,
}
use backwyn.Backup.{
  Dumped, hash_file, preflight, fill_dump, dump_to_temp, prepare, or_remove, after_prepare, run,
}

module _ {H : Type 0} (temps : H → Text → Bool) (host : Host H) (laws : IsHost host temps)
    (sha256 : Text → Text) where
  hash_file-Same : (path : Text) (h : H) → Same temps h (hash_file host sha256 path h).1
  unfolding hash_file
  hash_file-Same path h =
      let hashed : Reader → H → Result Text (Text × ℕ) × H = (λ f h'. elim f.fault [
        | some e ↦ (err e, h')
        | none ↦ (ok (sha256 f.bytes, length f.bytes % 2 ^ 64), h')
      ]) in
      after-Same temps h (host.open_file path h) hashed (laws.open_kept path h)
        (λ f h' q. ground arith)

  preflight-Same : (cfg : Config) (h : H) → Same temps h (preflight host sha256 cfg h).1
  unfolding preflight
  preflight-Same cfg h q =
      let uncovered = rls_uncovered_tables host cfg.source_dsn cfg.dump_schemas h in
      let same : temps uncovered.1 q ≡ temps h q =
        rls_uncovered_tables-Same temps host laws cfg.source_dsn cfg.dump_schemas h q in
      ground (arith, same)

  fill_dump-Stays :
      (cfg : Config) (dump_version path : Text) (h : H)
      → Stays temps (λ d. d.path ≡ path) h (fill_dump host sha256 cfg dump_version path h)
  unfolding fill_dump dump
  fill_dump-Stays cfg dump_version path h =
      let Q = λ (d : Dumped). d.path ≡ path in
      let dumped : Reader → Text × ℕ → Dumped = λ input hashed. record {
        path = path;
        pg_dump_version = dump_version;
        sum = hashed.0;
        plaintext_size = hashed.1;
        input = input;
      } in
      let opened : Text × ℕ → H → Result Text Dumped × H = λ hashed h'.
        after (reworded (λ e. lit "open dump for encryption: " ++ e) (host.open_file path h'))
          (λ input. pure (dumped input hashed)) in
      after-Stays temps Q h (ok tt, (host.close path h).1)
        (λ _. dump host cfg.source_dsn path cfg.dump_schemas cfg.dump_row_security >>= λ _.
          hash_file host sha256 path >>= opened)
        (laws.close_kept path h)
        (λ _ h1.
          after-Stays temps Q h1
            (dump host cfg.source_dsn path cfg.dump_schemas cfg.dump_row_security h1)
            (λ _. hash_file host sha256 path >>= opened) (run_program-Same temps host laws _ _ _ h1)
            (λ _ h2.
              after-Stays temps Q h2 (hash_file host sha256 path h2) opened (hash_file-Same path h2)
                (λ hashed h3.
                  after-Stays temps Q h3
                    (reworded (λ e. lit "open dump for encryption: " ++ e) (host.open_file path h3))
                    (λ input. pure (dumped input hashed))
                    (reworded-Same temps _ h3 _ (laws.open_kept path h3))
                    (λ input h4. (refl, λ q. refl)))))

  dump_to_temp-Holds :
      (cfg : Config) (dump_version : Text) (h : H)
      → Holds temps (λ d. d.path) h (dump_to_temp host sha256 cfg dump_version h)
  unfolding dump_to_temp
  dump_to_temp-Holds cfg dump_version h =
      create_temp-Holds temps host laws (λ d. d.path) (λ e. lit "create temp dump file: " ++ e)
        (lit "backwyn-dump-*.pgc") h
        (λ path. or_remove host sha256 path (fill_dump host sha256 cfg dump_version path))
        (λ path h1 took.
          or_remove-Holds temps host laws (λ d. d.path) path h h1
            (fill_dump host sha256 cfg dump_version path h1) took
            (fill_dump-Stays cfg dump_version path h1))

  -- The dump lies in a file of its own, or nothing is left.
  prepare-Holds : (cfg : Config) (h : H) → Holds temps (λ d. d.path) h (prepare host sha256 cfg h)
  unfolding prepare
  prepare-Holds cfg h =
      let path = λ (d : Dumped). d.path in
      let dumps = version host (lit "pg_dump") >>= dump_to_temp host sha256 cfg in
      after-Holds temps path h (require host (lit "pg_dump" ∷ []) h)
        (λ _. preflight host sha256 cfg >> dumps)
        (require-Same temps host laws (lit "pg_dump" ∷ []) h)
        (λ _ h1.
          after-Holds temps path h1 (preflight host sha256 cfg h1) (λ _. dumps)
            (preflight-Same cfg h1)
            (λ _ h2.
              after-Holds temps path h2 (version host (lit "pg_dump") h2)
                (dump_to_temp host sha256 cfg) (version-Same temps host laws (lit "pg_dump") h2)
                (dump_to_temp-Holds cfg)))

  module _ {S : Type 0} (b : Backend S) (j : Json) (a : Aead) (random : Random) (urls : Urls) where
    after_prepare-Same :
        (cfg : Config) (now : Time) (s : S) (h : H) (x : Result Text Dumped × H)
        → Holds temps (λ d. d.path) h x
        → Same temps h (after_prepare b j a random sha256 urls host cfg now s x).1.1
    unfolding after_prepare
    after_prepare-Same cfg now s h (err e, h') held = held
    after_prepare-Same cfg now s h (ok d, h') held =
        remove_back temps host laws d.path held (λ q. refl)

-- A backup leaves no file with the plain dump behind, and takes away no other temporary file, whichever
-- step fails, on a machine that keeps the promises of `os`.
pub temps-backup_run :
    {S H : Type 0} (temps : H → Text → Bool) (host : Host H) (b : Backend S) (j : Json) (a : Aead)
    (random : Random) (sha256 : Text → Text) (urls : Urls) (cfg : Config) (now : Time) (s : S)
    (h : H) (q : Text)
    → IsHost host temps
    → temps (run b j a random sha256 urls host cfg now (s, h)).1.1 q ≡ temps h q
unfolding run
temps-backup_run temps host b j a random sha256 urls cfg now s h q laws =
    after_prepare-Same temps host laws sha256 b j a random urls cfg now s h
      (prepare host sha256 cfg h) (prepare-Holds temps host laws sha256 cfg h) q

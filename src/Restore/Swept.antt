-- ===== src/Restore/Swept.antt =====
-- internal/restore/restore.go: the temporary file of a restore into a database.
use backwyn.Prelude.{◌≡◌, refl, Bool, true, false, Option, none, some, [], ◌∷◌, Result, ok, err}
use backwyn.Prelude.Int.{ℤ, pos, ltb_ℤ}
use backwyn.Prelude.Text.{Text, lit}
use backwyn.Storage.{Backend}
use backwyn.Manifest.{Manifest, Json}
use backwyn.Config.{Config}
use backwyn.Host.{Host}
use backwyn.Host.Temps.{IsHost, Same, Holds, Same-trans, remove_back}
use backwyn.Crypto.Cipher.{Aead}
use backwyn.Artifact.Load.{load}
use backwyn.Artifact.Materialize.{StageError, materialize_temp}
use backwyn.Artifact.Swept.{materialize_temp-Holds}
use backwyn.Pgtools.Dsn.{Urls}
use backwyn.Pgtools.Client.{RestoreOptions, require, restore, count_user_tables}
use backwyn.Pgtools.Client.Temps.{require-Same, count_user_tables-Same, restore-Same}
use backwyn.Restore.{
  Options, OpenOutput, is_blank, unless, option_error, unverified_error, source_error,
  occupied_error, after_counted, after_restored, after_temp, into_target, after_existing,
  inspect_target, after_tools, to_target, after_loaded, load_backup, run,
}

module _ {S H : Type 0} (temps : H → Text → Bool) (host : Host H) (laws : IsHost host temps)
    (b : Backend S) (j : Json) (a : Aead) (sha256 : Text → Text) (open_output : OpenOutput H)
    (quote : Text → Text) (urls : Urls) where
  unless-Same :
      {A : Type 0} (g : Option Text) (s : S) (h : H) (k : S × H → Result Text A × (S × H))
      → Same temps h (k (s, h)).1.1
      → Same temps h (unless g (s, h) k).1.1
  unfolding unless
  unless-Same (some e) s h k same q = refl
  unless-Same none s h k same q = same q

  after_counted-Same :
      (o : Options) (m : Manifest) (x : Result Text ℤ × H)
      → Same temps x.1 (after_counted b j a sha256 host open_output quote urls o m x).1
  unfolding after_counted
  after_counted-Same o m (err e, h) q = refl
  after_counted-Same o m (ok n, h) q = refl

  after_restored-Same :
      (o : Options) (m : Manifest) (x : Result Text Text × H)
      → Same temps x.1 (after_restored b j a sha256 host open_output quote urls o m x).1
  unfolding after_restored
  after_restored-Same o m (err e, h) = λ q. refl
  after_restored-Same o m (ok _, h) =
      Same-trans temps (count_user_tables-Same temps host laws quote o.target_dsn h)
        (after_counted-Same o m (count_user_tables host quote o.target_dsn h))

  after_temp-Same :
      (o : Options) (m : Manifest) (n : ℤ) (h : H) (x : Result StageError Text × (S × H))
      → Holds temps (λ p. p) h (x.0, x.1.1)
      → Same temps h (after_temp b j a sha256 host open_output quote urls o m n x).1.1
  unfolding after_temp
  after_temp-Same o m n h (err e, (s, h')) held = held
  after_temp-Same o m n h (ok path, (s, h')) held =
      let options : RestoreOptions = record { clean = ltb_ℤ (pos 0) n; sandbox = false } in
      remove_back temps host laws path held (
        Same-trans temps (restore-Same temps host laws o.target_dsn path options h')
          (after_restored-Same o m (restore host o.target_dsn path options h')))

  after_existing-Same :
      (cfg : Config) (o : Options) (m : Manifest) (s : S) (x : Result Text ℤ × H)
      → Same temps x.1 (after_existing b j a sha256 host open_output quote urls cfg o m s x).1.1
  unfolding after_existing into_target
  after_existing-Same cfg o m s (err e, h) = λ q. refl
  after_existing-Same cfg o m s (ok n, h) =
      unless-Same (occupied_error urls o n) s h
        (into_target b j a sha256 host open_output quote urls cfg o m n)
        (after_temp-Same o m n h (materialize_temp b a sha256 cfg.encryption_key host m (s, h))
          (materialize_temp-Holds temps host laws b a sha256 cfg.encryption_key m s h))

  after_tools-Same :
      (cfg : Config) (o : Options) (m : Manifest) (s : S) (x : Result Text (Unit {0}) × H)
      → Same temps x.1 (after_tools b j a sha256 host open_output quote urls cfg o m s x).1.1
  unfolding after_tools inspect_target
  after_tools-Same cfg o m s (err e, h) = λ q. refl
  after_tools-Same cfg o m s (ok _, h) =
      unless-Same (source_error urls cfg o) s h
        (inspect_target b j a sha256 host open_output quote urls cfg o m)
        (Same-trans temps (count_user_tables-Same temps host laws quote o.target_dsn h)
          (after_existing-Same cfg o m s (count_user_tables host quote o.target_dsn h)))

  after_loaded-Same :
      (cfg : Config) (o : Options) (id : Text) (h : H) (x : Result Text Manifest × S)
      → is_blank o.to_file ≡ true
      → Same temps h (after_loaded b j a sha256 host open_output quote urls cfg o id h x).1.1
  unfolding after_loaded to_target
  after_loaded-Same cfg o id h (err e, s) into = λ q. refl
  after_loaded-Same cfg o id h (ok m, s) into =
      let tools = require host (lit "pg_restore" ∷ lit "psql" ∷ []) h in
      unless-Same (unverified_error o id m) s h
        (to_target b j a sha256 host open_output quote urls (is_blank o.to_file) cfg o m)
        (λ q. rw into (
          Same-trans temps (require-Same temps host laws (lit "pg_restore" ∷ lit "psql" ∷ []) h)
            (after_tools-Same cfg o m s tools) q))

-- A restore into a database leaves no file with the plain dump behind, and takes away no other
-- temporary file, whichever step fails, on a machine that keeps the promises of `os`.
pub temps-restore_run :
    {S H : Type 0} (temps : H → Text → Bool) (host : Host H) (b : Backend S) (j : Json) (a : Aead)
    (sha256 : Text → Text) (open_output : OpenOutput H) (quote : Text → Text) (urls : Urls)
    (cfg : Config) (o : Options) (id : Text) (s : S) (h : H) (q : Text)
    → IsHost host temps
    → is_blank o.to_file ≡ true
    → temps (run b j a sha256 host open_output quote urls cfg o id (s, h)).1.1 q ≡ temps h q
unfolding run load_backup
temps-restore_run temps host b j a sha256 open_output quote urls cfg o id s h q laws into =
    unless-Same temps host laws b j a sha256 open_output quote urls (option_error o) s h
      (load_backup b j a sha256 host open_output quote urls cfg o id)
      (after_loaded-Same temps host laws b j a sha256 open_output quote urls cfg o id h
        (load b j id s) into)
      q

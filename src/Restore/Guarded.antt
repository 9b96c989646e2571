-- ===== src/Restore/Guarded.antt =====
-- internal/restore/restore.go: what the guards rule out.
use mathlib.Core.Path.{subst}
use backwyn.Prelude.{
  ◌≡◌, ◌⊎◌, inl, inr, refl, Bool, true, false, Option, none, some, [], ◌∷◌, Result, ok, err, arith,
}
use backwyn.Prelude.Int.{ℤ, pos, ltb_ℤ}
use backwyn.Prelude.Text.{Text, lit}
use backwyn.Storage.{Backend}
use backwyn.Manifest.{Manifest, Json}
use backwyn.Config.{Config}
use backwyn.Host.{Host}
use backwyn.Crypto.Cipher.{Aead}
use backwyn.Artifact.Load.{load}
use backwyn.Pgtools.Dsn.{Urls, same_target}
use backwyn.Pgtools.Client.Temps.{require-state}
use backwyn.Pgtools.Client.{require, count_user_tables}
use backwyn.Restore.{
  Options, Restored, OpenOutput, is_blank, unless, option_error, unverified_error, source_error,
  occupied_error, into_target, after_existing, to_target, after_tools, inspect_target, after_loaded,
  load_backup, run,
}

unless-ok :
    {A W : Type 0} (g : Option Text) (w : W) (k : W → Result Text A × W) (r : A)
    → (unless g w k).0 ≡ ok r
    → (g ≡ none) × ((k w).0 ≡ ok r)
unfolding unless
unless-ok none w k r h = (refl, h)
unless-ok (some e) w k r h = absurd (ground arith)

unverified_error-none :
    (o : Options) (id : Text) (m : Manifest)
    → unverified_error o id m ≡ none
    → (m.verification.verified ≡ true) ⊎ (o.allow_unverified ≡ true)
unfolding unverified_error
unverified_error-none o id m h = ground arith

source_error-none :
    (urls : Urls) (cfg : Config) (o : Options)
    → source_error urls cfg o ≡ none
    → (is_blank cfg.source_dsn ≡ true)
      ⊎ ((same_target urls o.target_dsn cfg.source_dsn ≡ false) ⊎ (o.force ≡ true))
unfolding source_error
source_error-none urls cfg o h = ground arith

occupied_error-none :
    (urls : Urls) (o : Options) (n : ℤ)
    → occupied_error urls o n ≡ none
    → (ltb_ℤ (pos 0) n ≡ false) ⊎ (o.force ≡ true)
unfolding occupied_error
occupied_error-none urls o n h = ground arith

module _ {S H : Type 0} (b : Backend S) (j : Json) (a : Aead) (sha256 : Text → Text) (host : Host H)
    (open_output : OpenOutput H) (quote : Text → Text) (urls : Urls) where
  -- The guards on a database, which `h` has, did not refuse it.
  abbrev Passed : Config → Options → H → Type 0
  Passed cfg o h =
      (source_error urls cfg o ≡ none)
      × (n : ℤ) × ((count_user_tables host quote o.target_dsn h).0 ≡ ok n)
      × (occupied_error urls o n ≡ none)

  after_existing-ok :
      (cfg : Config) (o : Options) (m : Manifest) (s : S) (x : Result Text ℤ × H) (r : Restored)
      → (after_existing b j a sha256 host open_output quote urls cfg o m s x).0 ≡ ok r
      → (n : ℤ) × (x.0 ≡ ok n) × (occupied_error urls o n ≡ none)
  unfolding after_existing
  after_existing-ok cfg o m s (err e, h) r ran = absurd (ground arith)
  after_existing-ok cfg o m s (ok n, h) r ran = (
    n,
    refl,
    (unless-ok (occupied_error urls o n) (s, h)
        (into_target b j a sha256 host open_output quote urls cfg o m n) r ran).0,
  )

  after_tools-ok :
      (cfg : Config) (o : Options) (m : Manifest) (s : S) (p : Result Text (Unit {0}) × H)
      (r : Restored)
      → (after_tools b j a sha256 host open_output quote urls cfg o m s p).0 ≡ ok r
      → Passed cfg o p.1
  unfolding after_tools inspect_target
  after_tools-ok cfg o m s (err e, h) r ran = absurd (ground arith)
  after_tools-ok cfg o m s (ok _, h) r ran =
      let (fine, ran') =
        unless-ok (source_error urls cfg o) (s, h)
          (inspect_target b j a sha256 host open_output quote urls cfg o m) r ran in
      let (n, counted, free) =
        after_existing-ok cfg o m s (count_user_tables host quote o.target_dsn h) r ran' in
      (fine, n, counted, free)

  to_target-ok :
      (empty : Bool) (cfg : Config) (o : Options) (m : Manifest) (w : S × H) (r : Restored)
      → (to_target b j a sha256 host open_output quote urls empty cfg o m w).0 ≡ ok r
      → (empty ≡ false) ⊎ Passed cfg o w.1
  unfolding to_target
  to_target-ok false cfg o m w r ran = inl refl
  to_target-ok true cfg o m (s, h) r ran =
      let bins = lit "pg_restore" ∷ lit "psql" ∷ [] in
      inr (
        subst (Passed cfg o) (require-state host bins h)
          (after_tools-ok cfg o m s (require host bins h) r ran))

  after_loaded-ok :
      (cfg : Config) (o : Options) (id : Text) (h : H) (p : Result Text Manifest × S) (r : Restored)
      → (after_loaded b j a sha256 host open_output quote urls cfg o id h p).0 ≡ ok r
      → (m : Manifest) × (p.0 ≡ ok m)
        × (unverified_error o id m ≡ none)
        × ((is_blank o.to_file ≡ false) ⊎ Passed cfg o h)
  unfolding after_loaded
  after_loaded-ok cfg o id h (err e, s) r ran = absurd (ground arith)
  after_loaded-ok cfg o id h (ok m, s) r ran =
      let (verified, ran') =
        unless-ok (unverified_error o id m) (s, h)
          (to_target b j a sha256 host open_output quote urls (is_blank o.to_file) cfg o m) r ran in
      (m, refl, verified, to_target-ok (is_blank o.to_file) cfg o m (s, h) r ran')

  -- If a restore succeeds, the manifest that it loaded is verified or unverified ones were allowed, and
  -- it went to a file, or both of this hold: no source is configured, or its target is not the source's,
  -- or it was forced; and the tables of its target were counted first, and there was none, or it was
  -- forced.
  pub run-guarded :
      (cfg : Config) (o : Options) (id : Text) (s : S) (h : H) (r : Restored)
      → (run b j a sha256 host open_output quote urls cfg o id (s, h)).0 ≡ ok r
      → (m : Manifest) × ((load b j id s).0 ≡ ok m)
        × ((m.verification.verified ≡ true) ⊎ (o.allow_unverified ≡ true))
        × ((is_blank o.to_file ≡ false)
            ⊎ (((is_blank cfg.source_dsn ≡ true)
                  ⊎ ((same_target urls o.target_dsn cfg.source_dsn ≡ false) ⊎ (o.force ≡ true)))
                × (n : ℤ) × ((count_user_tables host quote o.target_dsn h).0 ≡ ok n)
                × ((ltb_ℤ (pos 0) n ≡ false) ⊎ (o.force ≡ true))))
  unfolding run load_backup
  run-guarded cfg o id s h r ran =
      let (_, ran1) =
        unless-ok (option_error o) (s, h)
          (load_backup b j a sha256 host open_output quote urls cfg o id) r ran in
      let (m, loaded, verified, target) = after_loaded-ok cfg o id h (load b j id s) r ran1 in
      (
        m,
        loaded,
        unverified_error-none o id m verified,
        elim target [
          | inl file ↦ inl file
          | inr (fine, n, counted, free) ↦
              inr (source_error-none urls cfg o fine, n, counted, occupied_error-none urls o n free)
        ],
      )

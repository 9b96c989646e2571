-- ===== src/Verify/Verdict.antt =====
-- internal/verify/verify.go: what a verification that succeeds has seen and stored.
use mathlib.Core.Path.{subst}
use backwyn.Prelude.{
  ◌≡◌, ◌≢◌, refl, sym, ap, ◌∙◌, Bool, true, false, Option, none, some, [], ◌∷◌, Result, ok, err,
  inl, inr, Bool-cases, arith,
}
use backwyn.Prelude.Int.{ℤ}
use backwyn.Prelude.Text.{Text, lit}
use backwyn.Time.{Time}
use backwyn.Storage.{Backend, IsStore}
use backwyn.Manifest.{Manifest, Verification, Json, no_verification, manifest_key}
use backwyn.Config.{Config}
use backwyn.Host.{Host}
use backwyn.Crypto.Cipher.{Aead}
use backwyn.Artifact.Load.{load, save}
use backwyn.Artifact.Materialize.{StageError, materialize_temp}
use backwyn.Pgtools.Dsn.{Urls}
use backwyn.Pgtools.Client.{require}
use backwyn.Pgtools.Client.Temps.{require-state}
use backwyn.Verify.Checks.{IsClean, Passed, checks-ok}
use backwyn.Verify.{
  Checked, is_blank, checks, after_save, finish, is_write, refused, after_materialize_temp,
  after_load, after_require, run,
}

module _ {H : Type 0} (host : Host H) (quote : Text → Text) (urls : Urls) where
  module _ {S : Type 0} (b : Backend S) (j : Json) (a : Aead) (sha256 : Text → Text) where
    -- What `Run` leaves when it succeeds.
    unfoldable pub IsVerdict : (S → Text → Option Text) → Manifest → Time → Manifest → S → Type 0
    IsVerdict view before now m s =
        (m.verification.verified ≡ true)
        × (m.verification.verified_at ≡ now)
        × IsClean m.verification
        × (record before { verification = m.verification } ≡ m)
        × (view s (manifest_key m.id) ≡ some (j.encode m))

    -- `MaterializeTemp` of the backup, and every check on the file that it gave, have succeeded.
    abbrev pub Checks : Config → Text → Manifest → S × H → Manifest → Type 0
    Checks cfg id before w m =
        (path : Text) × (w' : S × H) × (materialize_temp b a sha256 cfg.encryption_key host
            (record before { verification = no_verification }) w
          ≡ (ok path, w'))
        × Passed host quote urls cfg id path w'.1 m.verification.table_count

    after_save-ok :
        (m m' : Manifest) (w : Result Text (Unit {0}) × S)
        → (after_save host quote urls b j a sha256 m w).0 ≡ ok m'
        → (w.0 ≡ ok tt) × (m ≡ m') × ((after_save host quote urls b j a sha256 m w).1 ≡ w.1)
    unfolding after_save
    after_save-ok m m' (err e, s) h = absurd (ground arith)
    after_save-ok m m' (ok _, s) h = (refl, ground arith, refl)

    module _ (view : S → Text → Option Text) (st : IsStore b view) where
      finish-ok :
          (P : ℤ → Type 0) (m m' : Manifest) (now : Time) (r : Checked) (s : S)
          → ((x : Verification) → r ≡ ok x → IsClean x × P x.table_count)
          → (finish host quote urls b j a sha256 m now r s).0 ≡ ok m'
          → IsVerdict view m now m' (finish host quote urls b j a sha256 m now r s).1
            × P m'.verification.table_count
      unfolding finish save IsVerdict IsClean
      finish-ok P m m' now (err (e, v)) s clean h = absurd (ground arith)
      finish-ok P m m' now (ok v) s clean h =
          let m1 = record m { verification = record v { verified = true; verified_at = now } } in
          let (saved, same, state) = after_save-ok m1 m' (save b j m1 s) h in
          let (flags, passed) = clean v refl in
          subst
            (λ z.
              IsVerdict view m now z (finish host quote urls b j a sha256 m now (ok v) s).1
              × P z.verification.table_count)
            same
            (
              (
                refl,
                refl,
                flags,
                refl,
                ap (λ z. view z (manifest_key m.id)) state
                    ∙ (st.put_ok (manifest_key m.id) (record { bytes = j.encode m1; fault = none })
                        s saved).1,
              ),
              passed,
            )

      refused-err :
          (write : Bool) (m m' : Manifest) (now : Time) (e : StageError) (s : S)
          → (refused host quote urls b j a sha256 write m now e s).0 ≢ ok m'
      unfolding refused finish
      refused-err true m m' now e s h = absurd (ground arith)
      refused-err false m m' now e s h = absurd (ground arith)

      after_materialize_temp-ok :
          (cfg : Config) (id : Text) (now : Time) (m m' : Manifest)
          (w : Result StageError Text × (S × H))
          → (after_materialize_temp host quote urls b j a sha256 cfg id now m w).0 ≡ ok m'
          → IsVerdict view m now m'
              (after_materialize_temp host quote urls b j a sha256 cfg id now m w).1.0
            × ((path : Text) × (w' : S × H) × (w ≡ (ok path, w'))
                × Passed host quote urls cfg id path w'.1 m'.verification.table_count)
      unfolding after_materialize_temp
      after_materialize_temp-ok cfg id now m m' (err e, (s, h)) p =
          absurd (refused-err (is_write e.stage) m m' now e s p)
      after_materialize_temp-ok cfg id now m m' (ok path, (s, h)) p =
          let (verdict, passed) =
            finish-ok (Passed host quote urls cfg id path h) m m' now
              (checks host quote urls cfg id path h).0 s
              (λ x passed. checks-ok host quote urls cfg id path x h passed) p in
          (verdict, (path, (s, h), refl, passed))

      after_load-ok :
          (cfg : Config) (id : Text) (now : Time) (m : Manifest) (h : H)
          (w : Result Text Manifest × S)
          → (after_load host quote urls b j a sha256 cfg id now h w).0 ≡ ok m
          → (before : Manifest) × (w.0 ≡ ok before)
            × IsVerdict view before now m
                (after_load host quote urls b j a sha256 cfg id now h w).1.0
            × Checks cfg id before (w.1, h) m
      unfolding after_load IsVerdict
      after_load-ok cfg id now m h (err e, s) p = absurd (ground arith)
      after_load-ok cfg id now m h (ok before, s) p =
          let reset = record before { verification = no_verification } in
          let (verdict, done) =
            after_materialize_temp-ok cfg id now reset m
              (materialize_temp b a sha256 cfg.encryption_key host reset (s, h)) p in
          (before, refl, verdict, done)

      after_require-ok :
          (cfg : Config) (id : Text) (now : Time) (m : Manifest) (s : S)
          (w : Result Text (Unit {0}) × H)
          → (after_require host quote urls b j a sha256 cfg id now s w).0 ≡ ok m
          → (before : Manifest) × ((load b j id s).0 ≡ ok before)
            × IsVerdict view before now m
                (after_require host quote urls b j a sha256 cfg id now s w).1.0
            × Checks cfg id before ((load b j id s).1, w.1) m
      unfolding after_require
      after_require-ok cfg id now m s (err e, h) p = absurd (ground arith)
      after_require-ok cfg id now m s (ok _, h) p =
          elim (Bool-cases (is_blank cfg.verify_admin_dsn)) [
            | inl blank ↦ absurd (ground arith)
            | inr given ↦
                let goes_on : after_require host quote urls b j a sha256 cfg id now s (ok tt, h)
                    ≡ after_load host quote urls b j a sha256 cfg id now h (load b j id s) =
                  rw (after_require, given) refl in
                let (before, loaded, verdict, done) =
                  after_load-ok cfg id now m h (load b j id s) (sym (ap (λ z. z.0) goes_on) ∙ p) in
                (
                  before,
                  loaded,
                  subst (λ z. IsVerdict view before now m z.1.0) (sym goes_on) verdict,
                  done,
                )
          ]

      -- If `Run` succeeds, every step of it has succeeded, one behind the other: the manifest was loaded,
      -- `MaterializeTemp` gave the file with the dump, its contents were listed, the scratch database
      -- was created, the dump restored into it, its tables counted, and the query of the configuration run,
      -- if there is one. The manifest that it returns is the one it loaded, marked as
      -- verified at the time given, with that count and without an error, and is stored.
      pub run-ok :
          (cfg : Config) (id : Text) (now : Time) (s : S) (h : H) (m : Manifest)
          → (run host quote urls b j a sha256 cfg id now (s, h)).0 ≡ ok m
          → (before : Manifest) × ((load b j id s).0 ≡ ok before)
            × IsVerdict view before now m (run host quote urls b j a sha256 cfg id now (s, h)).1.0
            × Checks cfg id before ((load b j id s).1, h) m
      unfolding run
      run-ok cfg id now s h m p =
          let bins = lit "pg_restore" ∷ lit "psql" ∷ [] in
          let (before, loaded, verdict, done) =
            after_require-ok cfg id now m s (require host bins h) p in
          (
            before,
            loaded,
            verdict,
            subst (λ z. Checks cfg id before ((load b j id s).1, z) m) (require-state host bins h)
                done,
          )

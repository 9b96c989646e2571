-- ===== src/Verify/Marked.antt =====
-- internal/verify/verify.go: what a verification that fails leaves in the store.
use mathlib.Core.Path.{subst}
use backwyn.Prelude.{
  ◌≡◌, ◌≢◌, ◌⊎◌, refl, ◌∙◌, Bool, true, false, Option, none, some, [], ◌∷◌, ◌++◌, Result, ok, err,
  inl, inr, Bool-cases, Result-cases, arith,
}
use backwyn.Prelude.Text.{Text, lit}
use backwyn.Time.{Time}
use backwyn.Storage.{Backend, IsStore, Reader}
use backwyn.Manifest.{Manifest, Json, no_verification, manifest_key}
use backwyn.Config.{Config}
use backwyn.Host.{Host}
use backwyn.Crypto.Cipher.{Aead}
use backwyn.Artifact.Load.{load, save}
use backwyn.Artifact.Reads.{load-view}
use backwyn.Artifact.Materialize.{StageError, materialize, materialize_temp}
use backwyn.Pgtools.Dsn.{Urls}
use backwyn.Pgtools.Client.{require}
use backwyn.Verify.{
  Checked, Failure, is_blank, after_save, finish, is_write, stage_error, refused,
  after_materialize_temp, after_load, after_require, run,
}

module _ {H S : Type 0} (host : Host H) (quote : Text → Text) (urls : Urls) (b : Backend S)
    (j : Json) (a : Aead) (sha256 : Text → Text) (view : S → Text → Option Text)
    (st : IsStore b view) where
  -- Every object is as it was.
  abbrev Kept : S → S → Type 0
  Kept s s' = (k : Text) → view s' k ≡ view s k

  -- The last call of the store was the `Put` of this manifest, with the result `r`: it stored the
  -- manifest if it succeeded, and nothing or that if it failed, and changed no other object.
  abbrev pub Saved : S → Manifest → S → Result Text (Unit {0}) → Type 0
  Saved s m s' r =
      (s1 : S) × Kept s s1
      × (b.put (manifest_key m.id) (record { bytes = j.encode m; fault = none }) s1 ≡ (r, s'))
      × ((r ≡ ok tt) → view s' (manifest_key m.id) ≡ some (j.encode m))
      × ((view s' (manifest_key m.id) ≡ some (j.encode m))
          ⊎ (view s' (manifest_key m.id) ≡ view s (manifest_key m.id)))
      × ((k : Text) → manifest_key m.id ≢ k → view s' k ≡ view s k)

  -- The failure has marked the manifest as unverified, with its error, and has called `Put` to store it.
  abbrev pub Marked : S → Failure → S → Type 0
  Marked s f s' =
      (m : Manifest) × (f.marked ≡ some m)
      × (m.verification.verified ≡ false)
      × (f.error ≡ lit "verification failed: " ++ m.verification.error)
      × (r : Result Text (Unit {0})) × Saved s m s' r

  -- The checks passed, but the `Put` of the verified manifest failed.
  abbrev pub Unsaved : S → Failure → S → Type 0
  Unsaved s f s' =
      (m : Manifest) × (m.verification.verified ≡ true)
      × (e : Text) × (f.error ≡ lit "save verified manifest: " ++ e)
      × Saved s m s' (err e)

  -- What a failure says of the store: it has marked the manifest, or it has not touched any object, or
  -- it is that the verified manifest could not be saved.
  abbrev pub Said : S → Failure → S → Type 0
  Said s f s' = Marked s f s' ⊎ ((f.marked ≡ none) × (Kept s s' ⊎ Unsaved s f s'))

  -- Reads in front change nothing of that.
  Saved-behind :
      (s0 s : S) (m : Manifest) (s' : S) (r : Result Text (Unit {0}))
      → Kept s0 s
      → Saved s m s' r
      → Saved s0 m s' r
  Saved-behind s0 s m s' r kept (s1, reads, put, stored, either, others) = (
    s1,
    λ k. reads k ∙ kept k,
    put,
    stored,
    elim either [ inl new ↦ inl new | inr same ↦ inr (same ∙ kept (manifest_key m.id)) ],
    λ k n. others k n ∙ kept k,
  )

  Said-behind : (s0 s : S) (f : Failure) (s' : S) → Kept s0 s → Said s f s' → Said s0 f s'
  Said-behind s0 s f s' kept (inl (m, marked, unverified, text, r, saved)) =
      inl (m, marked, unverified, text, r, Saved-behind s0 s m s' r kept saved)
  Said-behind s0 s f s' kept (inr (unmarked, inl same)) = inr (unmarked, inl (λ k. same k ∙ kept k))
  Said-behind s0 s f s' kept (inr (unmarked, inr (m, verified, e, text, saved))) =
      inr (unmarked, inr (m, verified, e, text, Saved-behind s0 s m s' (err e) kept saved))

  -- What a call of `Save` leaves.
  save-Saved : (m : Manifest) (s : S) → Saved s m (save b j m s).1 (save b j m s).0
  unfolding save
  save-Saved m s =
      let key = manifest_key m.id in
      let written : Reader = record { bytes = j.encode m; fault = none } in
      (
        s,
        λ k. refl,
        refl,
        λ done. (st.put_ok key written s done).1,
        elim (Result-cases (b.put key written s).0) [
          | inl (u, done) ↦ inl (st.put_ok key written s done).1
          | inr (e, failed) ↦ elim (st.put_err key written s e failed) [
            | inl kept ↦ inr kept
            | inr new ↦ inl new
          ]
        ],
        λ k n. st.put_other key written s k n,
      )

  after_save-Said :
      (s : S) (m : Manifest) (x : Result Text (Unit {0}) × S) (f : Failure)
      → (m.verification.verified ≡ true)
      → Saved s m x.1 x.0
      → (after_save host quote urls b j a sha256 m x).0 ≡ err f
      → Said s f (after_save host quote urls b j a sha256 m x).1
  unfolding after_save
  after_save-Said s m (err e, s') f verified saved h =
      inr (ground arith, inr (m, verified, e, ground arith, saved))
  after_save-Said s m (ok u, s') f verified saved h = absurd (ground arith)

  finish-Said :
      (m : Manifest) (now : Time) (r : Checked) (s : S) (f : Failure)
      → (finish host quote urls b j a sha256 m now r s).0 ≡ err f
      → Said s f (finish host quote urls b j a sha256 m now r s).1
  unfolding finish
  finish-Said m now (err (e, v)) s f h =
      let m' = record m { verification = record v { verified = false; error = e } } in
      let same : record { error = lit "verification failed: " ++ e; marked = some m' } ≡ f =
        ground arith in
      subst (λ g. Said s g (save b j m' s).1) same
        (inl (m', refl, refl, refl, (save b j m' s).0, save-Saved m' s))
  finish-Said m now (ok v) s f h =
      let m' = record m { verification = record v { verified = true; verified_at = now } } in
      after_save-Said s m' (save b j m' s) f refl (save-Saved m' s) h

  refused-Said :
      (w : Bool) (m : Manifest) (now : Time) (e : StageError) (s : S) (f : Failure)
      → (refused host quote urls b j a sha256 w m now e s).0 ≡ err f
      → Said s f (refused host quote urls b j a sha256 w m now e s).1
  unfolding refused
  refused-Said true m now e s f h = inr (ground arith, inl (λ k. refl))
  refused-Said false m now e s f h = finish-Said m now (err (stage_error e, no_verification)) s f h

  after_temp-Said :
      (cfg : Config) (id : Text) (now : Time) (m : Manifest) (x : Result StageError Text × (S × H))
      (f : Failure)
      → (after_materialize_temp host quote urls b j a sha256 cfg id now m x).0 ≡ err f
      → Said x.1.0 f (after_materialize_temp host quote urls b j a sha256 cfg id now m x).1.0
  unfolding after_materialize_temp
  after_temp-Said cfg id now m (err e, (s, h)) f g = refused-Said (is_write e.stage) m now e s f g
  after_temp-Said cfg id now m (ok path, (s, h)) f g = finish-Said m now _ s f g

  -- Fetching the artifact changes no object.
  materialize_temp-view :
      (key : Text) (m : Manifest) (s : S) (h : H)
      → Kept s (materialize_temp b a sha256 key host m (s, h)).1.0
  unfolding materialize_temp materialize
  materialize_temp-view key m s h k =
      elim (Result-cases (host.create_temp (lit "backwyn-" ++ (m.id ++ lit "-*.pgc")) h).0) [
        | inl (path, made) ↦ rw (materialize_temp, made) (st.get_view m.artifact_key s k)
        | inr (e, failed) ↦ rw (materialize_temp, failed) refl
      ]

  after_load-Said :
      (cfg : Config) (id : Text) (now : Time) (h : H) (x : Result Text Manifest × S) (f : Failure)
      → (after_load host quote urls b j a sha256 cfg id now h x).0 ≡ err f
      → Said x.1 f (after_load host quote urls b j a sha256 cfg id now h x).1.0
  unfolding after_load
  after_load-Said cfg id now h (err e, s) f g = inr (ground arith, inl (λ k. refl))
  after_load-Said cfg id now h (ok m, s) f g =
      let reset = record m { verification = no_verification } in
      let x = materialize_temp b a sha256 cfg.encryption_key host reset (s, h) in
      Said-behind s x.1.0 f
        (after_materialize_temp host quote urls b j a sha256 cfg id now reset x).1.0
        (materialize_temp-view cfg.encryption_key reset s h)
        (after_temp-Said cfg id now reset x f g)

  after_require-Said :
      (cfg : Config) (id : Text) (now : Time) (s : S) (x : Result Text (Unit {0}) × H) (f : Failure)
      → (after_require host quote urls b j a sha256 cfg id now s x).0 ≡ err f
      → Said s f (after_require host quote urls b j a sha256 cfg id now s x).1.0
  unfolding after_require
  after_require-Said cfg id now s (err e, h) f g = inr (ground arith, inl (λ k. refl))
  after_require-Said cfg id now s (ok u, h) f g =
      elim (Bool-cases (is_blank cfg.verify_admin_dsn)) [
        | inl blank ↦ let g' = (rw blank at g) in rw blank (inr (ground arith, inl (λ k. refl)))
        | inr given ↦ rw given (
            Said-behind s (load b j id s).1 f
              (after_load host quote urls b j a sha256 cfg id now h (load b j id s)).1.0
              (λ k. load-view b j view st id s k)
              (after_load-Said cfg id now h (load b j id s) f (rw given at g)))
      ]

  -- A verification that fails has done one of three things to the store. It has marked the manifest that
  -- it returns as unverified, with the error, and its last call of the store was the `Put` of that
  -- manifest, which stored it unless it failed; or it returns no manifest and has changed no object; or
  -- it returns no manifest and that last call was the `Put` of a verified one, whose error it returns. A
  -- `Put` that fails has stored that manifest or has changed nothing; no other object is changed.
  pub run-Said :
      (cfg : Config) (id : Text) (now : Time) (s : S) (h : H) (f : Failure)
      → (run host quote urls b j a sha256 cfg id now (s, h)).0 ≡ err f
      → Said s f (run host quote urls b j a sha256 cfg id now (s, h)).1.0
  unfolding run
  run-Said cfg id now s h f g =
      after_require-Said cfg id now s (require host (lit "pg_restore" ∷ lit "psql" ∷ []) h) f g

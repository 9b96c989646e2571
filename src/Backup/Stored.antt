-- ===== src/Backup/Stored.antt =====
-- What a backup leaves in the store, whatever fails.
use mathlib.Core.Path.{subst}
use backwyn.Prelude.{
  ◌≡◌, ◌≢◌, sym, ap, ◌∙◌, Option, none, [], ◌++◌, Result, ok, err, inl, inr, Bool-cases, arith,
  Result-cases,
}
use backwyn.Prelude.Effect.{wrap-then-err, wrap-then-ok}
use backwyn.Prelude.Text.{Text, lit, text_eq, text_eq_iff}
use backwyn.Time.{Time}
use backwyn.Time.Stamp.{format_stamp}
use backwyn.Storage.{Backend, Reader, IsStore}
use backwyn.Manifest.{Manifest, Json, manifest_key, artifact_key_of}
use backwyn.Manifest.Keys.{manifest_key-injective, manifest_key-ne-artifact_key_of}
use backwyn.Config.{Config}
use backwyn.Pgtools.Dsn.{Urls}
use backwyn.Host.{Host}
use backwyn.Crypto.Stream.{endless}
use backwyn.Crypto.Cipher.{Aead, Random, encrypt}
use backwyn.Retention.Complete.{IsComplete}
use backwyn.Backup.{
  Dumped, piped, manifest_of, store_manifest, store_backup, prepare, after_prepare, run,
}

-- The error of the first `Put`.
abbrev pub storing : Text → Text
storing e = lit "store encrypted artifact: " ++ e

module _ {S : Type 0} (b : Backend S) (view : S → Text → Option Text) (st : IsStore b view) where
  put_artifact-IsComplete :
      (id : Text) (r : Reader) (s : S)
      → IsComplete (view s)
      → IsComplete (view (b.put (artifact_key_of id) r s).1)
  put_artifact-IsComplete id r s h i missing =
      let k = artifact_key_of id in
      let other : view (b.put k r s).1 (manifest_key i) ≡ view s (manifest_key i) =
        st.put_other k r s (manifest_key i) (λ e. manifest_key-ne-artifact_key_of i id (sym e)) in
      other ∙ (elim (Bool-cases (text_eq k (artifact_key_of i))) [
        | inr apart ↦ h i (
            sym (
              st.put_other k r s (artifact_key_of i)
                (λ e. absurd (ground (arith, apart, (text_eq_iff k (artifact_key_of i)).1 e))))
            ∙ missing)
        | inl same ↦
            let e = (text_eq_iff k (artifact_key_of i)).0 same in
            let missing' : view (b.put k r s).1 k ≡ none =
              subst (λ z. view (b.put k r s).1 z ≡ none) (sym e) missing in
            elim (Result-cases (b.put k r s).0) [
              | inl (_, done) ↦ absurd (ground (arith, missing', (st.put_ok k r s done).1))
              | inr (x, failed) ↦ elim (st.put_err k r s x failed) [
                | inl kept ↦ h i (subst (λ z. view s z ≡ none) e (sym kept ∙ missing'))
                | inr written ↦ absurd (ground (arith, missing', written))
              ]
            ]
      ])

  put_manifest-IsComplete :
      (id : Text) (r : Reader) (s : S)
      → view s (artifact_key_of id) ≢ none
      → IsComplete (view s)
      → IsComplete (view (b.put (manifest_key id) r s).1)
  put_manifest-IsComplete id r s present h i missing =
      let before : view s (artifact_key_of i) ≡ none =
        sym (
          st.put_other (manifest_key id) r s (artifact_key_of i)
            (manifest_key-ne-artifact_key_of id i))
        ∙ missing in
      elim (Bool-cases (text_eq (manifest_key id) (manifest_key i))) [
        | inr apart ↦
            st.put_other (manifest_key id) r s (manifest_key i) (λ e.
              absurd (ground (arith, apart, (text_eq_iff (manifest_key id) (manifest_key i)).1 e)))
            ∙ h i before
        | inl same ↦
            let e =
              manifest_key-injective id i
                ((text_eq_iff (manifest_key id) (manifest_key i)).0 same) in
            absurd (present (ap (λ z. view s (artifact_key_of z)) e ∙ before))
      ]

  module _ (j : Json) (a : Aead) (random : Random) (sha256 : Text → Text) (urls : Urls) where
    store_manifest-view :
        (m : Manifest) (s : S)
        → (store_manifest b j a random sha256 urls m s).1
          ≡ (b.put (manifest_key m.id) (record { bytes = j.encode m; fault = none }) s).1
    unfolding store_manifest
    store_manifest-view m s =
        elim (Result-cases
          (b.put (manifest_key m.id) (record { bytes = j.encode m; fault = none }) s).0) [
            | inl (_, done) ↦ ground arith
            | inr (e, failed) ↦ ground arith
          ]

    -- Wherever it fails, the storing part of a backup leaves no manifest without its artifact.
    store_backup-IsComplete :
        (cfg : Config) (now : Time) (d : Dumped) (s : S)
        → IsComplete (view s)
        → IsComplete (view (store_backup b j a random sha256 urls cfg now d s).1)
    unfolding store_backup manifest_of
    store_backup-IsComplete cfg now d s h =
        let pipe = piped (encrypt a random cfg.encryption_key d.input (endless [])) in
        let m = manifest_of b j a random sha256 urls cfg now d pipe.bytes in
        let s1 = (b.put m.artifact_key pipe s).1 in
        let h1 : IsComplete (view s1) = put_artifact-IsComplete (format_stamp now) pipe s h in
        let next = store_manifest b j a random sha256 urls m in
        elim (Result-cases (b.put m.artifact_key pipe s).0) [
          | inr (e, failed) ↦
              subst (λ z. IsComplete (view z))
                (sym (
                  ap (λ z. z.1)
                    (wrap-then-err storing (b.put m.artifact_key pipe) next s e failed)))
                h1
          | inl (_, done) ↦
              subst (λ z. IsComplete (view z))
                (sym (
                  ap (λ z. z.1) (wrap-then-ok storing (b.put m.artifact_key pipe) next s tt done)
                  ∙ store_manifest-view m s1))
                (put_manifest-IsComplete (format_stamp now)
                  (record { bytes = j.encode m; fault = none }) s1
                  (λ missing.
                    absurd (ground (arith, missing, (st.put_ok m.artifact_key pipe s done).1)))
                  h1)
        ]

    after_prepare-IsComplete :
        {H : Type 0} (host : Host H) (cfg : Config) (now : Time) (s : S)
        (p : Result Text Dumped × H)
        → IsComplete (view s)
        → IsComplete (view (after_prepare b j a random sha256 urls host cfg now s p).1.0)
    unfolding after_prepare
    after_prepare-IsComplete host cfg now s (err e, h) complete = complete
    after_prepare-IsComplete host cfg now s (ok d, h) complete =
        store_backup-IsComplete cfg now d s complete

    -- Wherever `Run` fails, in a tool, in the store or on disk, it leaves no manifest without its
    -- artifact, if there was none before.
    pub run-IsComplete :
        {H : Type 0} (host : Host H) (cfg : Config) (now : Time) (s : S) (h : H)
        → IsComplete (view s)
        → IsComplete (view (run b j a random sha256 urls host cfg now (s, h)).1.0)
    unfolding run
    run-IsComplete host cfg now s h =
        after_prepare-IsComplete host cfg now s (prepare host sha256 cfg h)

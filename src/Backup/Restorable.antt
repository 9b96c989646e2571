-- ===== src/Backup/Restorable.antt =====
-- A backup that succeeded is in the store, and comes back as the dump that it was made of.
use mathlib.Core.Path.{subst, ap₂}
use mathlib.Core.Option.{some_inj}
use backwyn.Prelude.{
  ◌≡◌, refl, sym, ap, ◌∙◌, ℕ, Option, none, some, [], ◌++◌, ok, err, inl, inr, arith, Result-cases,
  length, drop-append,
}
use backwyn.Prelude.Effect.{wrap-then-err, wrap-then-ok}
use backwyn.Prelude.Text.{Text, text_eq_refl}
use backwyn.Time.{Time}
use backwyn.Time.Stamp.{format_stamp}
use backwyn.Storage.{Backend, Reader, IsStore}
use backwyn.Manifest.{Manifest, Json, manifest_key}
use backwyn.Manifest.Keys.{manifest_key-ne-artifact_key_of}
use backwyn.Config.{Config}
use backwyn.Pgtools.Dsn.{Urls}
use backwyn.Crypto.Stream.{endless}
use backwyn.Crypto.Cipher.{Aead, IsAead, Random, Written, encrypt, decrypt, nonce_size}
use backwyn.Crypto.RoundTrip.{decrypt-encrypt}
use backwyn.Artifact.Materialize.{hex, check_sum, materialize, after_fetch, after_decrypt}
use backwyn.Backup.{Dumped, piped, manifest_of, store_manifest, store_backup}
use backwyn.Backup.Stored.{storing}

piped-ok : (w : Written) → (piped w).fault ≡ none → (w.0 ≡ ok tt) × ((piped w).bytes ≡ w.1.written)
unfolding piped
piped-ok (ok _, s) h = (refl, refl)
piped-ok (err e, s) h = absurd (ground arith)

module _ {S : Type 0} (b : Backend S) (a : Aead) (sha256 : Text → Text) (key : Text) where
  check_sum-same :
      (m : Manifest) (p : Text)
      → m.plaintext_sha256 ≡ hex (sha256 p)
      → check_sum b a sha256 key m p ≡ ok tt
  unfolding check_sum
  check_sum-same m p h = rw (check_sum, h, text_eq_refl (hex (sha256 p))) refl

  -- Fetching an artifact that decrypts to a text with the right checksum writes this text.
  materialize_lem :
      (m : Manifest) (s : S) (w p : Text) (rc : Reader)
      → (b.get m.artifact_key s).0 ≡ ok rc
      → decrypt a key rc (endless w) ≡ (ok tt, endless (w ++ p))
      → m.plaintext_sha256 ≡ hex (sha256 p)
      → (materialize b a sha256 key m (endless w) s).0 ≡ (ok tt, endless (w ++ p))
  unfolding materialize after_fetch after_decrypt
  materialize_lem m s w p rc got opens sum =
      ap (after_fetch b a sha256 key m (endless w)) got
      ∙ ap (after_decrypt b a sha256 key m (endless w)) opens
      ∙ ap (λ z. (check_sum b a sha256 key m z, endless (w ++ p))) (drop-append w p)
      ∙ ap (λ z. (z, endless (w ++ p))) (check_sum-same m p sum)

module _ {S : Type 0} (b : Backend S) (view : S → Text → Option Text) (st : IsStore b view)
    (j : Json) (a : Aead) (random : Random) (sha256 : Text → Text) (urls : Urls) where
  store_manifest-ok :
      (m : Manifest) (s : S) (m' : Manifest)
      → (store_manifest b j a random sha256 urls m s).0 ≡ ok m'
      → let put = b.put (manifest_key m.id) (record { bytes = j.encode m; fault = none }) s in
        (put.0 ≡ ok tt) × (m ≡ m') × ((store_manifest b j a random sha256 urls m s).1 ≡ put.1)
  unfolding store_manifest
  store_manifest-ok m s m' h =
      elim (Result-cases
        (b.put (manifest_key m.id) (record { bytes = j.encode m; fault = none }) s).0) [
          | inl (_, done) ↦ (done, ground arith, ground arith)
          | inr (e, failed) ↦ absurd (ground arith)
        ]

  -- A backup that succeeds leaves the encrypted dump and its manifest under their keys.
  store_backup-stored :
      (cfg : Config) (now : Time) (d : Dumped) (s : S) (m : Manifest)
      → (store_backup b j a random sha256 urls cfg now d s).0 ≡ ok m
      → let s' = (store_backup b j a random sha256 urls cfg now d s).1 in
        let (r, sink) = encrypt a random cfg.encryption_key d.input (endless []) in
        (r ≡ ok tt)
        × (view s' m.artifact_key ≡ some sink.written)
        × (view s' (manifest_key m.id) ≡ some (j.encode m))
        × (m.plaintext_sha256 ≡ hex d.sum)
  unfolding store_backup manifest_of store_manifest
  store_backup-stored cfg now d s m h =
      let w = encrypt a random cfg.encryption_key d.input (endless []) in
      let pipe = piped w in
      let m0 = manifest_of b j a random sha256 urls cfg now d pipe.bytes in
      let next = store_manifest b j a random sha256 urls m0 in
      let s1 = (b.put m0.artifact_key pipe s).1 in
      let r2 : Reader = record { bytes = j.encode m0; fault = none } in
      elim (Result-cases (b.put m0.artifact_key pipe s).0) [
        | inr (e, failed) ↦ absurd (
            ground (
              arith,
              h,
              ap (λ z. z.0) (wrap-then-err storing (b.put m0.artifact_key pipe) next s e failed),
            ))
        | inl (_, done) ↦
            let e1 = wrap-then-ok storing (b.put m0.artifact_key pipe) next s tt done in
            let (done2, same, e2) = store_manifest-ok m0 s1 m (sym (ap (λ z. z.0) e1) ∙ h) in
            let s2 = (b.put (manifest_key m0.id) r2 s1).1 in
            let (clean, stored) = st.put_ok m0.artifact_key pipe s done in
            let (encrypted, all) = piped-ok w clean in
            let state : (store_backup b j a random sha256 urls cfg now d s).1 ≡ s2 =
              ap (λ z. z.1) e1 ∙ e2 in
            let artifact : view s2 m0.artifact_key ≡ some w.1.written =
              st.put_other (manifest_key m0.id) r2 s1 m0.artifact_key
                (manifest_key-ne-artifact_key_of (format_stamp now) (format_stamp now))
              ∙ stored
              ∙ ap some all in
            (
              encrypted,
              ap (λ z. view z m.artifact_key) state
                  ∙ ap (λ (z : Manifest). view s2 z.artifact_key) (sym same)
                  ∙ artifact,
              ap (λ z. view z (manifest_key m.id)) state
                  ∙ subst (λ (z : Manifest). view s2 (manifest_key z.id) ≡ some (j.encode z)) same
                      (st.put_ok (manifest_key m0.id) r2 s1 done2).1,
              ap (λ (z : Manifest). z.plaintext_sha256) (sym same),
            )
      ]

  -- After a backup that succeeded, `Materialize` of its manifest writes exactly the bytes of the dump,
  -- with the checksum right, if its fetch succeeds and the stream has no fault; the dump was the same
  -- when it was hashed and when it was encrypted, and nonces have 12 bytes.
  pub store_backup-restores :
      (cfg : Config) (now : Time) (d : Dumped) (s : S) (m : Manifest) (rc : Reader) (w : Text)
      → IsAead a
      → ((i : ℕ) (n : Text) → random i ≡ ok n → length n ≡ nonce_size)
      → d.sum ≡ sha256 d.input.bytes
      → (store_backup b j a random sha256 urls cfg now d s).0 ≡ ok m
      → (b.get m.artifact_key (store_backup b j a random sha256 urls cfg now d s).1).0 ≡ ok rc
      → rc.fault ≡ none
      → (materialize b a sha256 cfg.encryption_key m
          (endless w)
          (store_backup b j a random sha256 urls cfg now d s).1).0
        ≡ (ok tt, endless (w ++ d.input.bytes))
  store_backup-restores cfg now d s m rc w laws draws hashed h got clean =
      let s' = (store_backup b j a random sha256 urls cfg now d s).1 in
      let key = cfg.encryption_key in
      let sealed = (encrypt a random key d.input (endless [])).1.written in
      let (encrypted, stored, _, sum) = store_backup-stored cfg now d s m h in
      let same : rc.bytes ≡ sealed =
        some_inj.0 (sym (st.get_ok m.artifact_key s' rc got clean) ∙ stored) in
      let reader : rc ≡ record { bytes = sealed; fault = none } =
        ap₂ (λ (x : Text) (y : Option Text). record { bytes = x; fault = y }) same clean in
      materialize_lem b a sha256 key m s' w d.input.bytes rc got
        (ap (λ z. decrypt a key z (endless w)) reader
          ∙ decrypt-encrypt a random key laws draws d.input w encrypted)
        (sum ∙ ap hex hashed)

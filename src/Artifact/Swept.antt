-- ===== src/Artifact/Swept.antt =====
-- internal/artifact/artifact.go: the file of `MaterializeTemp`.
use backwyn.Prelude.{◌∙◌, Bool, inl, inr, Result, ok, err, ◌++◌, Result-cases}
use backwyn.Prelude.Text.{Text, lit}
use backwyn.Storage.{Backend}
use backwyn.Manifest.{Manifest}
use backwyn.Crypto.Stream.{Sink}
use backwyn.Crypto.Cipher.{Aead}
use backwyn.Host.{Host}
use backwyn.Host.Temps.{IsHost, Took, Holds, remove_back}
use backwyn.Artifact.Materialize.{StageError, after_materialize, materialize, materialize_temp}

module _ {S H : Type 0} (temps : H → Text → Bool) (host : Host H) (laws : IsHost host temps)
    (b : Backend S) (a : Aead) (sha256 : Text → Text) (key : Text) where
  after_materialize-Holds :
      (path : Text) (done : Result StageError (Unit {0}) × Sink) (h h1 : H)
      → Took temps path h h1
      → Holds temps (λ p. p) h (after_materialize b a sha256 key host path done h1)
  unfolding after_materialize
  after_materialize-Holds path (err e, dst) h h1 took =
      remove_back temps host laws path took
        (λ q. laws.close_kept path (host.filled path dst h1) q ∙ laws.filled_kept path dst h1 q)
  after_materialize-Holds path (ok _, dst) h h1 took =
      let h2 = host.filled path dst h1 in
      let same = λ (q : Text). laws.close_kept path h2 q ∙ laws.filled_kept path dst h1 q in
      elim (Result-cases (host.close path h2).0) [
        | inl (u, closed) ↦ rw (after_materialize, closed) (took.0, λ q. same q ∙ took.1 q)
        | inr (e, failed) ↦
            rw (after_materialize, failed) (remove_back temps host laws path took same)
      ]

  -- Where there is a path, its file is new; otherwise no file is left.
  pub materialize_temp-Holds :
      (m : Manifest) (s : S) (h : H)
      → Holds temps
          (λ p. p)
          h
          (
            (materialize_temp b a sha256 key host m (s, h)).0,
            (materialize_temp b a sha256 key host m (s, h)).1.1,
          )
  unfolding materialize_temp
  materialize_temp-Holds m s h =
      let name = lit "backwyn-" ++ (m.id ++ lit "-*.pgc") in
      let h1 = (host.create_temp name h).1 in
      elim (Result-cases (host.create_temp name h).0) [
        | inl (path, made) ↦
            rw (materialize_temp, made)
              (after_materialize-Holds path (materialize b a sha256 key m (host.writer path h1) s).0
                h h1 (laws.temp_new name h path made, λ q. laws.temp_ok name h path q made))
        | inr (e, failed) ↦ rw (materialize_temp, failed) (λ q. laws.temp_err name h e q failed)
      ]

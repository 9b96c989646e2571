-- ===== src/Artifact/Materialize.antt =====
-- internal/artifact/artifact.go: `Materialize` and `MaterializeTemp`. SHA-256 and AES-GCM come as
-- parameters.
use backwyn.Prelude.{
  ℕ, ◌+◌, ◌/◌, ◌%◌, not, [], ◌∷◌, ◌++◌, Result, ok, err, length, drop, leb, if◌then◌else◌,
}
use backwyn.Prelude.Text.{Text, lit, text_eq}
use backwyn.Storage.{Backend, Reader}
use backwyn.Host.{Host}
use backwyn.Manifest.{Manifest}
use backwyn.Crypto.Stream.{Sink}
use backwyn.Crypto.Cipher.{Aead, Written, decrypt}

pub data Stage : Type 0 where
  stage_fetch : Stage
  stage_decrypt : Stage
  stage_checksum : Stage
  stage_write : Stage

pub record StageError : Type 0 where
  pub stage : Stage
  pub error : Text

-- `hex.EncodeToString`
abbrev hex_digit : ℕ → ℕ
hex_digit n = if leb n 9 then n + 48 else n + 87

unfoldable pub hex : Text → Text
hex [] = []
hex (c ∷ s) = hex_digit (c / 16) ∷ hex_digit (c % 16) ∷ hex s

module _ {S : Type 0} (b : Backend S) (a : Aead) (sha256 : Text → Text) (key : Text) where
  -- The comparison of the checksums. The writer `io.MultiWriter(dst, h)` hashes what `dst` has taken.
  unfoldable pub check_sum : Manifest → Text → Result StageError (Unit {0})
  unfolding hex text_eq
  check_sum m plaintext =
      let got = hex (sha256 plaintext) in
      if not (text_eq got m.plaintext_sha256)
      then err (record {
        stage = stage_checksum;
        error = lit "checksum mismatch: manifest " ++ (m.plaintext_sha256 ++ (lit ", got " ++ got));
      })
      else ok tt

  -- Behind `Decrypt`.
  unfoldable pub after_decrypt : Manifest → Sink → Written → Result StageError (Unit {0}) × Sink
  unfolding check_sum drop
  after_decrypt m dst (err e, dst') = (err (record { stage = stage_decrypt; error = e }), dst')
  after_decrypt m dst (ok _, dst') = (check_sum m (drop (length dst.written) dst'.written), dst')

  -- Behind the fetch.
  unfoldable pub after_fetch :
      Manifest → Sink → Result Text Reader → Result StageError (Unit {0}) × Sink
  unfolding after_decrypt
  after_fetch m dst (err e) = (
    err (record {
      stage = stage_fetch;
      error = lit "fetch artifact " ++ (m.artifact_key ++ (lit ": " ++ e));
    }),
    dst,
  )
  after_fetch m dst (ok rc) = after_decrypt m dst (decrypt a key rc dst)

  -- `Materialize`: the result and what is written, and the store.
  unfoldable pub materialize : Manifest → Sink → S → (Result StageError (Unit {0}) × Sink) × S
  unfolding after_fetch
  materialize m dst s = let (r, s') = b.get m.artifact_key s in (after_fetch m dst r, s')

  -- `MaterializeTemp`: the path, for the caller to remove.
  module _ {H : Type 0} (host : Host H) where
    abbrev discard : Text → StageError → H → Result StageError Text × H
    discard path e h = (err e, host.remove path (host.close path h).1)

    -- Behind `Materialize`.
    unfoldable pub after_materialize :
        Text → Result StageError (Unit {0}) × Sink → H → Result StageError Text × H
    after_materialize path (err e, dst) h = discard path e (host.filled path dst h)
    after_materialize path (ok _, dst) h =
        let (closed, h') = host.close path (host.filled path dst h) in
        elim closed [
          | err e ↦ (
            err (record { stage = stage_write; error = lit "close temp file: " ++ e }),
            host.remove path h',
          )
          | ok _ ↦ (ok path, h')
        ]

    unfoldable pub materialize_temp : Manifest → S × H → Result StageError Text × (S × H)
    unfolding materialize after_materialize
    materialize_temp m (s, h) =
        let (created, h1) = host.create_temp (lit "backwyn-" ++ (m.id ++ lit "-*.pgc")) h in
        elim created [
          | err e ↦
              (err (record { stage = stage_write; error = lit "create temp file: " ++ e }), (s, h1))
          | ok path ↦
              let (done, s') = materialize m (host.writer path h1) s in
              let (r, h2) = after_materialize path done h1 in (r, (s', h2))
        ]

-- ===== src/Artifact/Faithful.antt =====
-- What `Materialize` writes when it succeeds.
use backwyn.Prelude.{
  ◌≡◌, refl, sym, ap, ◌∙◌, ◌++◌, ok, err, inl, inr, length, Bool-cases, drop, drop-append, arith,
  Result-cases,
}
use backwyn.Prelude.Text.{Text, text_eq, text_eq→eq}
use backwyn.Storage.{Backend, Reader}
use backwyn.Manifest.{Manifest}
use backwyn.Crypto.Stream.{Sink}
use backwyn.Crypto.Cipher.{Aead, Written, decrypt, magic_bytes}
use backwyn.Crypto.Format.{IsFramed}
use backwyn.Crypto.RoundTrip.{decrypt-IsFramed}
use backwyn.Artifact.Materialize.{hex, check_sum, after_decrypt, after_fetch, materialize}

module _ {S : Type 0} (b : Backend S) (a : Aead) (sha256 : Text → Text) (key : Text) where
  check_sum-ok :
      (m : Manifest) (p : Text)
      → (check_sum b a sha256 key m p ≡ ok tt)
      → hex (sha256 p) ≡ m.plaintext_sha256
  unfolding check_sum
  check_sum-ok m p h = elim (Bool-cases (text_eq (hex (sha256 p)) m.plaintext_sha256)) [
    | inl same ↦ text_eq→eq _ _ same
    | inr other ↦ absurd (ground arith)
  ]

  after_decrypt-ok :
      (m : Manifest) (rc : Reader) (dst : Sink) (w : Written)
      → decrypt a key rc dst ≡ w
      → (after_decrypt b a sha256 key m dst w).0 ≡ ok tt
      → (p : Text) × (c : Text) × (rest : Text) × ((after_decrypt b a sha256 key m dst w).1.written
          ≡ dst.written ++ p)
        × (hex (sha256 p) ≡ m.plaintext_sha256)
        × IsFramed a key p c
        × (rc.bytes ≡ magic_bytes ++ (c ++ rest))
  unfolding after_decrypt
  after_decrypt-ok m rc dst (err e, dst') same h = absurd (ground arith)
  after_decrypt-ok m rc dst (ok _, dst') same h =
      let (p, c, rest, framed, bytes, w) = decrypt-IsFramed a key rc dst (ap (λ z. z.0) same) in
      let w' : dst'.written ≡ dst.written ++ p = sym (ap (λ z. z.1.written) same) ∙ w in
      let cut : drop (length dst.written) dst'.written ≡ p =
        ap (drop (length dst.written)) w' ∙ drop-append dst.written p in
      (p, c, rest, w', check_sum-ok m p (rw cut at h), framed, bytes)

  -- If `Materialize` succeeds, it has written a text that has the checksum of the manifest, and the
  -- object it fetched starts with an artifact that opens, under the key, to this text.
  pub materialize-ok :
      (m : Manifest) (dst : Sink) (s : S)
      → (materialize b a sha256 key m dst s).0.0 ≡ ok tt
      → (rc : Reader) × (p : Text) × (c : Text) × (rest : Text) × ((b.get m.artifact_key s).0
          ≡ ok rc)
        × (rc.bytes ≡ magic_bytes ++ (c ++ rest))
        × IsFramed a key p c
        × ((materialize b a sha256 key m dst s).0.1.written ≡ dst.written ++ p)
        × (hex (sha256 p) ≡ m.plaintext_sha256)
  unfolding materialize after_fetch
  materialize-ok m dst s h = elim (Result-cases (b.get m.artifact_key s).0) [
    | inr (e, failed) ↦ absurd (ground arith)
    | inl (rc, got) ↦
        let e : after_fetch b a sha256 key m dst (b.get m.artifact_key s).0
            ≡ after_decrypt b a sha256 key m dst (decrypt a key rc dst) =
          ap (after_fetch b a sha256 key m dst) got in
        let (p, c, rest, w, sum, framed, bytes) =
          after_decrypt-ok m rc dst (decrypt a key rc dst) refl (sym (ap (λ z. z.0) e) ∙ h) in
        (rc, p, c, rest, got, bytes, framed, ap (λ z. z.1.written) e ∙ w, sum)
  ]

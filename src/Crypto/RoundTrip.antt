-- ===== src/Crypto/RoundTrip.antt =====
-- internal/crypto/crypto.go: `Encrypt` and `Decrypt` as the rest of the program sees them.
use mathlib.Core.List.{append_assoc, append-nil}
use backwyn.Prelude.{
  ℕ, suc, ◌≡◌, ◌≢◌, ◌⊎◌, inl, inr, ◌∙◌, refl, sym, ap, [], ◌∷◌, ◌++◌, Option, none, some, length,
  length-append, Bool-cases, Option-cases, true, false, ok, err, arith,
}
use backwyn.Prelude.Text.{Text, lit, text_eq, text_eq_refl, text_eq→eq}
use backwyn.Storage.{Reader}
use backwyn.Crypto.Stream.{Sink, endless, unexpected_text}
use backwyn.Crypto.Cipher.{
  Aead, IsAead, Random, nonce_size, magic_bytes, key_error, unless_error, with_key, after_key,
  encrypt_loop, encrypt, read_then, after_magic, decrypt_loop, decrypt,
}
use backwyn.Crypto.Format.{IsFramed, IsFramed-prefix, append-split}
use backwyn.Crypto.Steps.{
  read_then-cases, read_then-append, write_then-ok, write_then-endless, ok≢err,
}
use backwyn.Crypto.Keyed.{key_error-length, with_key-32, with_key-ok}
use backwyn.Crypto.Decrypting.{IsAccepted, IsSound, decrypt_loop-IsAccepted, decrypt_loop-IsFramed}
use backwyn.Crypto.Encrypting.{encrypt_loop-ok}
use backwyn.Crypto.Total.{encrypt_loop-endless}

length-magic : length magic_bytes ≡ 4
unfolding magic_bytes lit
length-magic = refl

append-nil_right : (x y : Text) → x ++ y ≡ [] → y ≡ []
append-nil_right [] y h = h
append-nil_right (c ∷ x) y h = absurd (cc h)

module _ (a : Aead) (key : Text) where
  after_magic-magic :
      (r : Reader) (s : Sink)
      → after_magic a key magic_bytes r s ≡ decrypt_loop a key (suc (length r.bytes)) r s
  unfolding after_magic
  after_magic-magic r s = rw (text_eq_refl magic_bytes) refl

  bad_magic :
      (magic : Text) (r : Reader) (s : Sink)
      → text_eq magic magic_bytes ≡ false
      → (after_magic a key magic r s).0 ≢ ok tt
  unfolding after_magic
  bad_magic magic r s other h =
      let e : (after_magic a key magic r s).0
          ≡ err (lit "bad magic header: not a backwyn artifact") =
        rw other refl in
      ok≢err (sym h ∙ e)

  after_magic-IsAccepted :
      (magic : Text) (r : Reader) (s : Sink)
      → (after_magic a key magic r s).0 ≡ ok tt
      → (p : Text) × (c : Text) × (rest : Text) × IsFramed a key p c
        × (magic ++ r.bytes ≡ magic_bytes ++ (c ++ rest))
        × ((after_magic a key magic r s).1.written ≡ s.written ++ p)
  unfolding after_magic IsAccepted IsSound
  after_magic-IsAccepted magic r s h = elim (Bool-cases (text_eq magic magic_bytes)) [
    | inr other ↦ absurd (bad_magic magic r s other h)
    | inl good ↦
        let e : after_magic a key magic r s ≡ decrypt_loop a key (suc (length r.bytes)) r s =
          rw good refl in
        let (p, c, rest, framed, b, w) =
          decrypt_loop-IsAccepted a key (suc (length r.bytes)) r s (sym (ap (λ z. z.0) e) ∙ h) in
        (
          p,
          c,
          rest,
          framed,
          ap (λ z. z ++ r.bytes) (text_eq→eq magic magic_bytes good) ∙ ap (λ z. magic_bytes ++ z) b,
          ap (λ z. z.1.written) e ∙ w,
        )
  ]

  encrypt-key :
      (random : Random) (src : Reader) (s : Sink)
      → (encrypt a random key src s).0 ≡ ok tt
      → length key ≡ 32
  unfolding encrypt with_key unless_error
  encrypt-key random src s h = elim (Option-cases (key_error key)) [
    | inl good ↦ key_error-length key good
    | inr (e, bad) ↦
        absurd (ok≢err (sym h ∙ ap (λ z. (unless_error z (after_key a random key src) s).0) bad))
  ]

  -- If `Decrypt` succeeds, its input starts with the magic bytes and complete frames that open
  -- under the key, and it has written the text of these frames; whatever follows them is ignored.
  pub decrypt-IsFramed :
      (src : Reader) (s : Sink)
      → (decrypt a key src s).0 ≡ ok tt
      → (p : Text) × (c : Text) × (rest : Text) × IsFramed a key p c
        × (src.bytes ≡ magic_bytes ++ (c ++ rest))
        × ((decrypt a key src s).1.written ≡ s.written ++ p)
  unfolding decrypt after_magic IsAccepted IsSound
  decrypt-IsFramed src s h =
      let k = read_then (lit "read magic: ") 4 (after_magic a key) src in
      let e0 = with_key-ok key k s h in
      elim (read_then-cases (lit "read magic: ") (after_magic a key) s 4 src) [
        | inr (_, bad) ↦ absurd (ok≢err (sym h ∙ ap (λ z. z.0) (e0 ∙ bad)))
        | inl (magic, left, n4, b, e1) ↦
            let (p, c, rest, framed, b1, w) =
              after_magic-IsAccepted magic _ s (sym (ap (λ z. z.0) (e0 ∙ e1)) ∙ h) in
            (p, c, rest, framed, b ∙ b1, ap (λ z. z.1.written) (e0 ∙ e1) ∙ w)
      ]

  -- With a key of 32 bytes, `Decrypt` turns the magic bytes and complete frames into the text of the
  -- frames, whatever follows them and however the input ends.
  pub decrypt_lem :
      (p c rest : Text) (fault : Option Text) (w : Text)
      → length key ≡ 32
      → IsFramed a key p c
      → decrypt a key (record { bytes = magic_bytes ++ (c ++ rest); fault = fault }) (endless w)
        ≡ (ok tt, endless (w ++ p))
  unfolding decrypt after_magic
  decrypt_lem p c rest fault w n32 framed =
      let src : Reader = record { bytes = magic_bytes ++ (c ++ rest); fault = fault } in
      let good : text_eq magic_bytes magic_bytes ≡ true = text_eq_refl magic_bytes in
      with_key-32 key (read_then (lit "read magic: ") 4 (after_magic a key) src) (endless w) n32
      ∙ read_then-append (lit "read magic: ") (after_magic a key) (endless w) 4 magic_bytes
          (c ++ rest) fault length-magic
      ∙ after_magic-magic (record { bytes = c ++ rest; fault = fault }) (endless w)
      ∙ decrypt_loop-IsFramed a key p c (suc (length (c ++ rest))) rest fault w framed
          (omega (arith, length-append c rest))

  -- `Decrypt` of a proper prefix of an artifact, the magic bytes and complete frames that open under
  -- the key, never succeeds, whatever the writer.
  pub decrypt_truncated :
      (p c front back : Text) (fault : Option Text) (s : Sink)
      → IsFramed a key p c
      → front ++ back ≡ magic_bytes ++ c
      → back ≢ []
      → (decrypt a key (record { bytes = front; fault = fault }) s).0 ≢ ok tt
  decrypt_truncated p c front back fault s framed split more h =
      let (q, d, rest, framed', b, _) =
        decrypt-IsFramed (record { bytes = front; fault = fault }) s h in
      let (_, e) =
        append-split magic_bytes magic_bytes c ((d ++ rest) ++ back) refl
          (sym split ∙ ap (λ z. z ++ back) b ∙ append_assoc magic_bytes (d ++ rest) back) in
      more (
        append-nil_right rest back (
          IsFramed-prefix a key q p d c (rest ++ back) framed' framed
            (e ∙ append_assoc d rest back)))

module _ (a : Aead) (random : Random) (key : Text) (laws : IsAead a)
    (draws : (i : ℕ) (n : Text) → random i ≡ ok n → length n ≡ nonce_size) where
  -- If `Encrypt` succeeds, its input has ended, or failed with `io.ErrUnexpectedEOF`, which it takes for
  -- the end, and no other error; and it has written the magic bytes and complete frames that open, under
  -- the key, to all that the input gave. The cipher opens what it has sealed, 16 bytes longer, and what the
  -- random source draws is 12 bytes long.
  pub encrypt-IsFramed :
      (src : Reader) (s : Sink)
      → (encrypt a random key src s).0 ≡ ok tt
      → (c : Text) × IsFramed a key src.bytes c
        × ((encrypt a random key src s).1.written ≡ s.written ++ (magic_bytes ++ c))
        × ((src.fault ≡ none) ⊎ (src.fault ≡ some unexpected_text))
  unfolding encrypt after_key
  encrypt-IsFramed src s h =
      let k = after_key a random key src in
      let loop = encrypt_loop a random key (suc (length src.bytes)) 0 src in
      let e0 = with_key-ok key k s h in
      let (s1, w1, e1) =
        write_then-ok (lit "write magic: ") magic_bytes loop s (sym (ap (λ z. z.0) e0) ∙ h) in
      let (c, framed, w2, clean) =
        encrypt_loop-ok a random key laws draws (suc (length src.bytes)) 0 src s1
          (sym (ap (λ z. z.0) (e0 ∙ e1)) ∙ h) in
      (
        c,
        framed,
        ap (λ z. z.1.written) (e0 ∙ e1)
            ∙ w2
            ∙ ap (λ z. z ++ c) w1
            ∙ append_assoc s.written magic_bytes c,
        clean,
      )

  -- Whatever `Encrypt` writes when it succeeds, `Decrypt` under the same key turns into its input again.
  pub decrypt-encrypt :
      (src : Reader) (w : Text)
      → (encrypt a random key src (endless [])).0 ≡ ok tt
      → let artifact = (encrypt a random key src (endless [])).1.written in
        decrypt a key (record { bytes = artifact; fault = none }) (endless w)
        ≡ (ok tt, endless (w ++ src.bytes))
  decrypt-encrypt src w h =
      let (c, framed, e, _) = encrypt-IsFramed src (endless []) h in
      ap (λ z. decrypt a key (record { bytes = z; fault = none }) (endless w))
        (e ∙ ap (λ z. magic_bytes ++ z) (sym (append-nil c)))
      ∙ decrypt_lem a key src.bytes c [] none w (encrypt-key a key random src (endless []) h) framed

-- `Encrypt` succeeds with a key of 32 bytes, a random source, input and writer that do not fail.
pub encrypt_succeeds :
    (a : Aead) (random : Random) (key bytes w : Text)
    → length key ≡ 32
    → ((i : ℕ) → (n : Text) × (random i ≡ ok n))
    → (encrypt a random key (record { bytes = bytes; fault = none }) (endless w)).0 ≡ ok tt
unfolding encrypt after_key
encrypt_succeeds a random key bytes w n32 draws =
    let src : Reader = record { bytes = bytes; fault = none } in
    let loop = encrypt_loop a random key (suc (length bytes)) 0 src in
    ap (λ z. z.0)
      (with_key-32 key (after_key a random key src) (endless w) n32
        ∙ write_then-endless (lit "write magic: ") magic_bytes loop (endless w) refl)
    ∙ encrypt_loop-endless a random key draws (suc (length bytes)) 0 bytes (w ++ magic_bytes)
        (omega arith)

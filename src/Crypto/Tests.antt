-- ===== src/Crypto/Tests.antt =====
-- internal/crypto/crypto.go: examples, with a cipher that only appends a tag.
use mathlib.Core.List.{nil≢cons}
use backwyn.Prelude.{◌≡◌, ◌≢◌, ◌⊎◌, refl, sym, ap, [], ◌∷◌, ◌++◌, none, some, ok, arith}
use backwyn.Prelude.Text.{Text}
use backwyn.Storage.{Reader}
use backwyn.Crypto.Stream.{endless, unexpected_text, write, read_full, uint32}
use backwyn.Crypto.Tag.{tag_cipher, tag_cipher-IsAead, key32, nonce12, fixed_draws, draws12}
use backwyn.Crypto.Cipher.{read_then, write_then, encrypt, decrypt, magic_bytes}
use backwyn.Crypto.Format.{IsFramed, done, frame}
use backwyn.Crypto.RoundTrip.{
  decrypt-IsFramed, decrypt_lem, decrypt_truncated, encrypt-IsFramed, decrypt-encrypt,
  encrypt_succeeds,
}

abbrev hello : Reader
hello = record { bytes = 104 ∷ 105 ∷ []; fault = none }

abbrev hello_frames : Text
unfolding tag_cipher
hello_frames =
    (0 ∷ 0 ∷ 0 ∷ 18 ∷ [])
    ++ (nonce12 ++ (tag_cipher.seal key32 nonce12 hello.bytes ++ (0 ∷ 0 ∷ 0 ∷ 0 ∷ [])))

hello-IsFramed : IsFramed tag_cipher key32 hello.bytes hello_frames
unfolding uint32 tag_cipher
hello-IsFramed =
    frame (0 ∷ 0 ∷ 0 ∷ 18 ∷ []) nonce12 (tag_cipher.seal key32 nonce12 hello.bytes) hello.bytes []
      (0 ∷ 0 ∷ 0 ∷ 0 ∷ []) refl refl (omega arith) refl refl (done (0 ∷ 0 ∷ 0 ∷ 0 ∷ []) refl refl)

hello_encrypts : (encrypt tag_cipher fixed_draws key32 hello (endless [])).0 ≡ ok tt
unfolding encrypt tag_cipher write read_full
hello_encrypts = refl

hello_decrypts :
    decrypt tag_cipher key32
      (record { bytes = magic_bytes ++ hello_frames; fault = none })
      (endless [])
    ≡ (ok tt, endless hello.bytes)
unfolding decrypt tag_cipher magic_bytes read_then read_full uint32 write_then write
hello_decrypts = refl

decrypt-encrypt_example :
    decrypt tag_cipher key32
      (record {
        bytes = (encrypt tag_cipher fixed_draws key32 hello (endless [])).1.written;
        fault = none;
      })
      (endless [])
    ≡ (ok tt, endless hello.bytes)
decrypt-encrypt_example =
    decrypt-encrypt tag_cipher fixed_draws key32 tag_cipher-IsAead draws12 hello [] hello_encrypts

encrypt-IsFramed_example :
    (c : Text) × IsFramed tag_cipher key32 hello.bytes c
    × ((encrypt tag_cipher fixed_draws key32 hello (endless [])).1.written
        ≡ [] ++ (magic_bytes ++ c))
    × ((hello.fault ≡ none) ⊎ (hello.fault ≡ some unexpected_text))
encrypt-IsFramed_example =
    encrypt-IsFramed tag_cipher fixed_draws key32 tag_cipher-IsAead draws12 hello (endless [])
      hello_encrypts

decrypt_lem_example :
    decrypt tag_cipher key32
      (record { bytes = magic_bytes ++ (hello_frames ++ (5 ∷ [])); fault = none })
      (endless [])
    ≡ (ok tt, endless hello.bytes)
decrypt_lem_example =
    decrypt_lem tag_cipher key32 hello.bytes hello_frames (5 ∷ []) none [] refl hello-IsFramed

decrypt-IsFramed_example :
    let r : Reader = record { bytes = magic_bytes ++ hello_frames; fault = none } in
    (p : Text) × (c : Text) × (rest : Text) × IsFramed tag_cipher key32 p c
    × (r.bytes ≡ magic_bytes ++ (c ++ rest))
    × ((decrypt tag_cipher key32 r (endless [])).1.written ≡ [] ++ p)
decrypt-IsFramed_example =
    decrypt-IsFramed tag_cipher key32 (record { bytes = magic_bytes ++ hello_frames; fault = none })
      (endless []) (ap (λ z. z.0) hello_decrypts)

decrypt_truncated_example :
    (decrypt tag_cipher key32 (record { bytes = magic_bytes; fault = none }) (endless [])).0 ≢ ok tt
unfolding hello_frames
decrypt_truncated_example =
    decrypt_truncated tag_cipher key32 hello.bytes hello_frames magic_bytes hello_frames none
      (endless []) hello-IsFramed refl (λ e. nil≢cons (sym e))

encrypt_succeeds_example : (encrypt tag_cipher fixed_draws key32 hello (endless [])).0 ≡ ok tt
encrypt_succeeds_example =
    encrypt_succeeds tag_cipher fixed_draws key32 hello.bytes [] refl (λ i. (nonce12, refl))

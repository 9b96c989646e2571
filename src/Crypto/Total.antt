-- ===== src/Crypto/Total.antt =====
-- internal/crypto/crypto.go, the loop of `Encrypt`: it ends, and fails only where it must.
use backwyn.Prelude.{
  ℕ, zero, suc, ◌<◌, ◌≡◌, inl, inr, ◌∙◌, refl, ap, [], ◌∷◌, ◌++◌, none, length, length-drop, leb,
  leb→le, drop, take, Bool-cases, ok, arith,
}
use backwyn.Prelude.Text.{Text, lit}
use backwyn.Storage.{Reader}
use backwyn.Crypto.Stream.{Sink, endless, put_uint32, ReadEnd, short_end}
use backwyn.Crypto.Cipher.{
  Aead, Random, Written, chunk_size, zero_length, write_then, after_draw, write_frame, terminate,
  after_chunk, encrypt_loop,
}
use backwyn.Crypto.Steps.{read_full-enough, read_full-short, write_then-endless}

module _ (a : Aead) (random : Random) (key : Text)
    (draws : (i : ℕ) → (n : Text) × (random i ≡ ok n)) where
  terminate-endless : (w : Text) → (terminate a random key (endless w)).0 ≡ ok tt
  unfolding terminate
  terminate-endless w =
      ap (λ z. z.0) (write_then-endless (lit "write terminator: ") zero_length _ (endless w) refl)

  after_chunk-endless :
      (next : Sink → Written) (bytes w : Text)
      → (after_chunk a random key next (short_end bytes none) (endless w)).0 ≡ ok tt
  unfolding after_chunk
  after_chunk-endless next [] w = terminate-endless w
  after_chunk-endless next (c ∷ bytes) w = terminate-endless w

  after_draw-endless :
      (chunk nonce w : Text) (k : Sink → Written)
      → (w' : Text) × (after_draw a random key chunk k (ok nonce) (endless w) ≡ k (endless w'))
  unfolding after_draw
  after_draw-endless chunk nonce w k =
      let ct = a.seal key nonce chunk in
      let k2 = write_then (lit "write ciphertext: ") ct k in
      let w1 = w ++ put_uint32 (length ct) in
      (
        (w1 ++ nonce) ++ ct,
        write_then-endless (lit "write frame length: ") (put_uint32 (length ct))
              (write_then (lit "write nonce: ") nonce k2) (endless w) refl
            ∙ write_then-endless (lit "write nonce: ") nonce k2 (endless w1) refl
            ∙ write_then-endless (lit "write ciphertext: ") ct k (endless (w1 ++ nonce)) refl,
      )

  write_frame-endless :
      (i : ℕ) (chunk w : Text) (k : Sink → Written)
      → (w' : Text) × (write_frame a random key i chunk k (endless w) ≡ k (endless w'))
  unfolding write_frame
  write_frame-endless i [] w k = (w, refl)
  write_frame-endless i (c ∷ chunk) w k =
      let (nonce, drawn) = draws i in
      let (w', e) = after_draw-endless (c ∷ chunk) nonce w k in
      (w', ap (λ z. after_draw a random key (c ∷ chunk) k z (endless w)) drawn ∙ e)

  pub encrypt_loop-endless :
      (fuel i : ℕ) (bytes w : Text)
      → length bytes < fuel
      → (encrypt_loop a random key fuel i (record { bytes = bytes; fault = none }) (endless w)).0
        ≡ ok tt
  unfolding encrypt_loop after_chunk
  encrypt_loop-endless zero i bytes w enough = absurd (omega (arith, enough))
  encrypt_loop-endless (suc fuel) i bytes w enough =
      let src : Reader = record { bytes = bytes; fault = none } in
      let k = (λ (z : Text × ReadEnd × Reader).
        after_chunk a random key (encrypt_loop a random key fuel (suc i) z.2) z.1) in
      let round =
        (λ (z : Text × ReadEnd × Reader). (write_frame a random key i z.0 (k z) (endless w)).0) in
      elim (Bool-cases (leb chunk_size (length bytes))) [
        | inl long ↦
            let (w', e) = write_frame-endless i (take chunk_size bytes) w (
              encrypt_loop a random key fuel (suc i)
                (record src { bytes = drop chunk_size bytes })) in
            ap round (read_full-enough chunk_size src long)
            ∙ ap (λ z. z.0) e
            ∙ encrypt_loop-endless fuel (suc i) (drop chunk_size bytes) w' (
                omega (
                  arith,
                  enough,
                  leb→le chunk_size (length bytes) long,
                  length-drop chunk_size bytes,
                ))
        | inr short ↦
            let (w', e) =
              write_frame-endless i bytes w
                (k (bytes, short_end bytes none, record src { bytes = [] })) in
            ap round (read_full-short chunk_size src short)
            ∙ ap (λ z. z.0) e
            ∙ after_chunk-endless _ bytes w'
      ]

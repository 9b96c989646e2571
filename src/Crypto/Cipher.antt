-- ===== src/Crypto/Cipher.antt =====
-- internal/crypto/crypto.go: `Encrypt` and `Decrypt`. AES-GCM and the random source come as
-- parameters.
use backwyn.Prelude.{
  ℕ, zero, suc, ◌+◌, ◌≡◌, not, Option, none, some, [], ◌∷◌, ◌++◌, Result, ok, err, length, ◌==◌,
  if◌then◌else◌,
}
use backwyn.Prelude.Text.{Text, lit, text_eq, show_ℕ}
use backwyn.Storage.{Reader}
use backwyn.Crypto.Stream.{
  ReadEnd, full, eof, unexpected_eof, unexpected_text, failed, read_full, Sink, write, put_uint32,
  uint32,
}

abbrev pub chunk_size : ℕ
chunk_size = 65_536

abbrev pub nonce_size : ℕ
nonce_size = 12

unfoldable pub magic_bytes : Text
unfolding lit
magic_bytes = lit "BWY1"

abbrev pub zero_length : Text
zero_length = 0 ∷ 0 ∷ 0 ∷ 0 ∷ []

-- `cipher.AEAD` for each key: `Seal` and `Open` take the nonce and the text.
pub record Aead : Type 0 where
  pub seal : Text → Text → Text → Text
  pub open_sealed : Text → Text → Text → Option Text

-- What is sealed opens again, and is 16 bytes longer.
pub record IsAead (a : Aead) : Type 0 where
  pub open-seal : (k n p : Text) → a.open_sealed k n (a.seal k n p) ≡ some p
  pub length-seal : (k n p : Text) → length (a.seal k n p) ≡ length p + 16

-- The random source: the bytes of each draw, or its error.
abbrev pub Random : Type 0
Random = ℕ → Result Text Text

-- What a function that writes returns: its error, and the writer.
abbrev pub Written : Type 0
Written = Result Text (Unit {0}) × Sink

-- `if _, err := dst.Write(p); err != nil { return fmt.Errorf(what, err) }`, then `k`
unfoldable pub after_write : Text → Written → (Sink → Written) → Written
after_write what (ok _, s) k = k s
after_write what (err e, s) k = (err (what ++ e), s)

unfoldable pub write_then : Text → Text → (Sink → Written) → Sink → Written
unfolding after_write
write_then what p k s = after_write what (write p s) k

-- `newAEAD`: its one error is the length of the key.
unfoldable pub key_error : Text → Option Text
key_error key =
    if length key == 32
    then none
    else some (lit "key must be 32 bytes, got " ++ show_ℕ (length key))

-- `aead, err := newAEAD(key); if err != nil { return err }`, then `k`
unfoldable pub unless_error : Option Text → (Sink → Written) → Sink → Written
unless_error (some e) k s = (err e, s)
unless_error none k s = k s

unfoldable pub with_key : Text → (Sink → Written) → Sink → Written
unfolding key_error unless_error
with_key key = unless_error (key_error key)

-- The text of the error that ends a read.
unfoldable pub end_text : ReadEnd → Text
end_text full = []
end_text eof = lit "EOF"
end_text unexpected_eof = unexpected_text
end_text (failed e) = e

module _ (a : Aead) (random : Random) (key : Text) where
  -- Behind `rand.Read`: one frame, then `k`.
  unfoldable pub after_draw : Text → (Sink → Written) → Result Text Text → Sink → Written
  unfolding write_then
  after_draw chunk k (err e) s = (err (lit "generate nonce: " ++ e), s)
  after_draw chunk k (ok nonce) s =
      let ct = a.seal key nonce chunk in
      write_then (lit "write frame length: ") (put_uint32 (length ct))
        (write_then (lit "write nonce: ") nonce (write_then (lit "write ciphertext: ") ct k)) s

  -- The `if n > 0` of the loop of `Encrypt`, then `k`.
  unfoldable pub write_frame : ℕ → Text → (Sink → Written) → Sink → Written
  unfolding after_draw
  write_frame i [] k s = k s
  write_frame i (c ∷ chunk) k s = after_draw (c ∷ chunk) k (random i) s

  -- Behind the loop of `Encrypt`.
  unfoldable pub terminate : Sink → Written
  unfolding write_then
  terminate = write_then (lit "write terminator: ") zero_length (λ s. (ok tt, s))

  -- How the loop goes on from the end of its read, with `next` for the next round.
  unfoldable pub after_chunk : (Sink → Written) → ReadEnd → Sink → Written
  unfolding terminate
  after_chunk next full s = next s
  after_chunk next eof s = terminate s
  after_chunk next unexpected_eof s = terminate s
  after_chunk next (failed e) s = (err (lit "read plaintext: " ++ e), s)

  -- The loop of `Encrypt`, in rounds; `fuel` is more than their number.
  unfoldable pub encrypt_loop : ℕ → ℕ → Reader → Sink → Written
  unfolding write_frame after_chunk
  encrypt_loop zero i src s = (err (lit "out of fuel"), s)
  encrypt_loop (suc fuel) i src s =
      let (chunk, end, src') = read_full chunk_size src in
      write_frame i chunk (after_chunk (encrypt_loop fuel (suc i) src') end) s

  -- Behind the key.
  unfoldable pub after_key : Reader → Sink → Written
  unfolding encrypt_loop
  after_key src =
      write_then (lit "write magic: ") magic_bytes (encrypt_loop (suc (length src.bytes)) 0 src)

  -- `Encrypt`
  unfoldable pub encrypt : Reader → Sink → Written
  unfolding with_key after_key
  encrypt src s = with_key key (after_key src) s

-- `if _, err := io.ReadFull(src, buf); err != nil { return fmt.Errorf(what, err) }`, then `k`
unfoldable pub after_read :
    Text → Text × ReadEnd × Reader → (Text → Reader → Sink → Written) → Sink → Written
unfolding end_text
after_read what (got, full, src) k s = k got src s
after_read what (got, eof, src) k s = (err (what ++ end_text eof), s)
after_read what (got, unexpected_eof, src) k s = (err (what ++ end_text unexpected_eof), s)
after_read what (got, failed e, src) k s = (err (what ++ end_text (failed e)), s)

unfoldable pub read_then : Text → ℕ → (Text → Reader → Sink → Written) → Reader → Sink → Written
unfolding after_read
read_then what n k src s = after_read what (read_full n src) k s

module _ (a : Aead) (key : Text) where
  -- Behind `aead.Open`, with `next` for the rest of the loop.
  unfoldable pub after_open : (Reader → Sink → Written) → Option Text → Reader → Sink → Written
  after_open next none src s =
      (err (lit "decrypt frame (corrupt or wrong key): cipher: message authentication failed"), s)
  after_open next (some pt) src s = write_then (lit "write plaintext: ") pt (next src) s

  -- Behind the read of the nonce.
  unfoldable pub after_nonce : (Reader → Sink → Written) → ℕ → Text → Reader → Sink → Written
  unfolding after_open
  after_nonce next frame_len nonce =
      read_then (lit "read ciphertext: ") frame_len
        (λ ct. after_open next (a.open_sealed key nonce ct))

  -- Behind the read of the length.
  unfoldable pub after_header : (Reader → Sink → Written) → Text → Reader → Sink → Written
  unfolding after_nonce
  after_header next header src s =
      if uint32 header == 0
      then (ok tt, s)
      else read_then (lit "read nonce: ") nonce_size (after_nonce next (uint32 header)) src s

  -- The loop of `Decrypt`, in frames; `fuel` is more than their number.
  unfoldable pub decrypt_loop : ℕ → Reader → Sink → Written
  unfolding after_header
  decrypt_loop zero src s = (err (lit "out of fuel"), s)
  decrypt_loop (suc fuel) src s =
      read_then (lit "read frame length: ") 4 (after_header (decrypt_loop fuel)) src s

  -- Behind the read of the magic bytes.
  unfoldable pub after_magic : Text → Reader → Sink → Written
  unfolding decrypt_loop
  after_magic magic src s =
      if not (text_eq magic magic_bytes)
      then (err (lit "bad magic header: not a backwyn artifact"), s)
      else decrypt_loop (suc (length src.bytes)) src s

  -- `Decrypt`
  unfoldable pub decrypt : Reader → Sink → Written
  unfolding with_key after_magic
  decrypt src s = with_key key (read_then (lit "read magic: ") 4 after_magic src) s

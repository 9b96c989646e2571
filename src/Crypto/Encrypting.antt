-- ===== src/Crypto/Encrypting.antt =====
-- internal/crypto/crypto.go, the loop of `Encrypt`: what it writes, and that it ends.
use mathlib.Core.Path.{subst}
use mathlib.Core.List.{append_assoc, append-nil}
use backwyn.Prelude.{
  ℕ, zero, suc, ◌≤◌, ◌≡◌, ◌⊎◌, inl, inr, ◌∙◌, refl, sym, ap, [], ◌∷◌, ◌++◌, Option, some, none,
  length, length-take, leb, leb-false→lt, take, drop, take-append-drop, Bool-cases, Result, ok, err,
  arith,
}
use backwyn.Prelude.Text.{Text, lit, text_eq, text_eq→eq}
use backwyn.Storage.{Reader}
use backwyn.Crypto.Stream.{
  Sink, uint32, put_uint32, uint32-put_uint32, ReadEnd, short_end, unexpected_text,
}
use backwyn.Crypto.Cipher.{
  Aead, IsAead, Random, Written, chunk_size, nonce_size, zero_length, write_then, after_draw,
  write_frame, terminate, after_chunk, encrypt_loop,
}
use backwyn.Crypto.Format.{IsFramed, done, frame, length-put_uint32}
use backwyn.Crypto.Steps.{read_full-enough, read_full-short, write_then-ok, ok≢err}

-- How the input of a call of `Encrypt` that succeeds may have ended.
abbrev pub Ended : Option Text → Type 0
Ended fault = (fault ≡ none) ⊎ (fault ≡ some unexpected_text)

module _ (a : Aead) (random : Random) (key : Text) where
  frame_text : Text → Text → Text
  frame_text nonce ct = put_uint32 (length ct) ++ (nonce ++ ct)

  after_draw-ok :
      (chunk : Text) (k : Sink → Written) (draw : Result Text Text) (s : Sink)
      → (after_draw a random key chunk k draw s).0 ≡ ok tt
      → (nonce : Text) × (s' : Sink) × (draw ≡ ok nonce)
        × (s'.written ≡ s.written ++ frame_text nonce (a.seal key nonce chunk))
        × (after_draw a random key chunk k draw s ≡ k s')
  unfolding after_draw frame_text
  after_draw-ok chunk k (err e) s h = absurd (ok≢err (sym h))
  after_draw-ok chunk k (ok nonce) s h =
      let ct = a.seal key nonce chunk in
      let k2 = write_then (lit "write ciphertext: ") ct k in
      let k1 = write_then (lit "write nonce: ") nonce k2 in
      let (s1, w1, e1) =
        write_then-ok (lit "write frame length: ") (put_uint32 (length ct)) k1 s h in
      let (s2, w2, e2) =
        write_then-ok (lit "write nonce: ") nonce k2 s1 (sym (ap (λ z. z.0) e1) ∙ h) in
      let (s3, w3, e3) =
        write_then-ok (lit "write ciphertext: ") ct k s2 (sym (ap (λ z. z.0) (e1 ∙ e2)) ∙ h) in
      (
        nonce,
        s3,
        refl,
        w3
            ∙ ap (λ z. z ++ ct) (w2 ∙ ap (λ z. z ++ nonce) w1)
            ∙ append_assoc (s.written ++ put_uint32 (length ct)) nonce ct
            ∙ append_assoc s.written (put_uint32 (length ct)) (nonce ++ ct),
        e1 ∙ e2 ∙ e3,
      )

  terminate-ok :
      (s : Sink)
      → (terminate a random key s).0 ≡ ok tt
      → (terminate a random key s).1.written ≡ s.written ++ zero_length
  unfolding terminate
  terminate-ok s h =
      let (s', w, e) = write_then-ok (lit "write terminator: ") zero_length (λ z. (ok tt, z)) s h in
      ap (λ z. z.1.written) e ∙ w

  -- How a round that read all of the rest ends.
  after_chunk-ok :
      (next : Sink → Written) (bytes : Text) (fault : Option Text) (s : Sink)
      → (after_chunk a random key next (short_end bytes fault) s).0 ≡ ok tt
      → Ended fault
        × ((after_chunk a random key next (short_end bytes fault) s).1.written
            ≡ s.written ++ zero_length)
  unfolding after_chunk
  after_chunk-ok next bytes (some e) s h = elim (Bool-cases (text_eq e unexpected_text)) [
    | inl early ↦
        rw early
          (inr (ap some (text_eq→eq e unexpected_text early)), terminate-ok s (rw early at h))
    | inr other ↦ absurd (ok≢err (sym (rw other at h)))
  ]
  after_chunk-ok next [] none s h = (inl refl, terminate-ok s h)
  after_chunk-ok next (c ∷ bytes) none s h = (inl refl, terminate-ok s h)

  module _ (laws : IsAead a)
      (draws : (i : ℕ) (n : Text) → random i ≡ ok n → length n ≡ nonce_size) where
    -- A frame that was written is one that opens to the chunk.
    write_frame-ok :
        (i : ℕ) (chunk : Text) (k : Sink → Written) (s : Sink)
        → length chunk ≤ chunk_size
        → (write_frame a random key i chunk k s).0 ≡ ok tt
        → (c : Text) × (s' : Sink) × (s'.written ≡ s.written ++ c)
          × (write_frame a random key i chunk k s ≡ k s')
          × ((q d : Text) → IsFramed a key q d → IsFramed a key (chunk ++ q) (c ++ d))
    unfolding write_frame frame_text
    write_frame-ok i [] k s small h = ([], s, sym (append-nil s.written), refl, λ q d f. f)
    write_frame-ok i (x ∷ chunk) k s small h =
        let (nonce, s', drawn, w, e) = after_draw-ok (x ∷ chunk) k (random i) s h in
        let ct = a.seal key nonce (x ∷ chunk) in
        let n = laws.length-seal key nonce (x ∷ chunk) in
        (
          frame_text nonce ct,
          s',
          w,
          e,
          λ q d f.
              subst (λ z. IsFramed a key (x ∷ (chunk ++ q)) z)
                (sym (
                  append_assoc (put_uint32 (length ct)) (nonce ++ ct) d
                  ∙ ap (λ z. put_uint32 (length ct) ++ z) (append_assoc nonce ct d)))
                (frame (put_uint32 (length ct)) nonce ct (x ∷ chunk) q d
                  (length-put_uint32 (length ct))
                  (uint32-put_uint32 (length ct) (omega (arith, n, small))) (omega (arith, n))
                  (draws i nonce drawn) (laws.open-seal key nonce (x ∷ chunk)) f),
        )

    -- The terminator is a frame of no bytes.
    terminated : IsFramed a key [] zero_length
    unfolding uint32
    terminated = done zero_length refl refl

    pub encrypt_loop-ok :
        (fuel i : ℕ) (src : Reader) (s : Sink)
        → (encrypt_loop a random key fuel i src s).0 ≡ ok tt
        → (c : Text) × IsFramed a key src.bytes c
          × ((encrypt_loop a random key fuel i src s).1.written ≡ s.written ++ c)
          × Ended src.fault
    unfolding encrypt_loop after_chunk
    encrypt_loop-ok zero i src s h = absurd (ok≢err (sym h))
    encrypt_loop-ok (suc fuel) i src s h =
        let round = (λ (z : Text × ReadEnd × Reader).
          write_frame a random key i z.0
            (after_chunk a random key (encrypt_loop a random key fuel (suc i) z.2) z.1) s) in
        elim (Bool-cases (leb chunk_size (length src.bytes))) [
          | inl long ↦
              let e = ap round (read_full-enough chunk_size src long) in
              let (c1, s1, w1, e1, framing) =
                write_frame-ok i (take chunk_size src.bytes) _ s
                  (omega (arith, length-take chunk_size src.bytes)) (sym (ap (λ z. z.0) e) ∙ h) in
              let (c2, framed, w2, clean) =
                encrypt_loop-ok fuel (suc i) (record src { bytes = drop chunk_size src.bytes }) s1
                  (sym (ap (λ z. z.0) (e ∙ e1)) ∙ h) in
              (
                c1 ++ c2,
                subst (λ z. IsFramed a key z (c1 ++ c2)) (take-append-drop chunk_size src.bytes)
                    (framing _ c2 framed),
                ap (λ z. z.1.written) (e ∙ e1)
                    ∙ w2
                    ∙ ap (λ z. z ++ c2) w1
                    ∙ append_assoc s.written c1 c2,
                clean,
              )
          | inr short ↦
              let e = ap round (read_full-short chunk_size src short) in
              let (c1, s1, w1, e1, framing) =
                write_frame-ok i src.bytes _ s
                  (omega (arith, leb-false→lt chunk_size (length src.bytes) short))
                  (sym (ap (λ z. z.0) e) ∙ h) in
              let (clean, w2) =
                after_chunk-ok _ src.bytes src.fault s1 (sym (ap (λ z. z.0) (e ∙ e1)) ∙ h) in
              (
                c1 ++ zero_length,
                subst (λ z. IsFramed a key z (c1 ++ zero_length)) (append-nil src.bytes)
                    (framing [] zero_length terminated),
                ap (λ z. z.1.written) (e ∙ e1)
                    ∙ w2
                    ∙ ap (λ z. z ++ zero_length) w1
                    ∙ append_assoc s.written c1 zero_length,
                clean,
              )
        ]

-- ===== src/Crypto/Decrypting.antt =====
-- internal/crypto/crypto.go, `Decrypt`: exactly the inputs that start with a complete artifact are
-- decrypted.
use mathlib.Core.List.{append_assoc, append-nil}
use mathlib.Core.Option.{some_inj}
use backwyn.Prelude.{
  ℕ, zero, suc, ◌<◌, ◌≡◌, ◌≢◌, inl, inr, ◌∙◌, refl, sym, ap, [], ◌++◌, Option, some, none, length,
  length-append, Bool-cases, true, false, ok, err, arith, ◌==◌,
}
use backwyn.Prelude.Text.{Text, lit}
use backwyn.Storage.{Reader}
use backwyn.Crypto.Stream.{Sink, endless, uint32}
use backwyn.Crypto.Cipher.{
  Aead, Written, nonce_size, read_then, after_open, after_nonce, after_header, decrypt_loop,
}
use backwyn.Crypto.Format.{IsFramed, done, frame}
use backwyn.Crypto.Steps.{
  read_then-cases, read_then-append, write_then-ok, write_then-endless, ok≢err,
}

frame_assoc : (h n t c rest : Text) → h ++ (n ++ (t ++ (c ++ rest))) ≡ h ++ (n ++ (t ++ c)) ++ rest
frame_assoc h n t c rest = sym (
    append_assoc h (n ++ (t ++ c)) rest
    ∙ ap (λ z. h ++ z) (append_assoc n (t ++ c) rest ∙ ap (λ z. n ++ z) (append_assoc t c rest)))

-- A step that ends in an error is not one that succeeds.
refuted : {w : Written} {e : Text} {s : Sink} → w ≡ (err e, s) → w.0 ≢ ok tt
refuted e h = ok≢err (sym h ∙ ap (λ z. z.0) e)

module _ (a : Aead) (key : Text) where
  -- What a loop that succeeds has read and written.
  unfoldable pub IsAccepted : Text → Text → Text → Type 0
  IsAccepted bytes before after =
      (p : Text) × (c : Text) × (rest : Text) × IsFramed a key p c
      × (bytes ≡ c ++ rest)
      × (after ≡ before ++ p)

  -- The rest of the loop accepts only frames.
  unfoldable pub IsSound : (Reader → Sink → Written) → Type 0
  unfolding IsAccepted
  IsSound next =
      (r : Reader) (s : Sink)
      → (next r s).0 ≡ ok tt
      → IsAccepted r.bytes s.written (next r s).1.written

  module _ (next : Reader → Sink → Written) (sound : IsSound next) where
    after_open-IsNext :
        (o : Option Text) (r : Reader) (s : Sink)
        → (after_open a key next o r s).0 ≡ ok tt
        → (p : Text) × (q : Text) × (c : Text) × (rest : Text) × (o ≡ some p)
          × IsFramed a key q c
          × (r.bytes ≡ c ++ rest)
          × ((after_open a key next o r s).1.written ≡ s.written ++ (p ++ q))
    unfolding after_open IsSound IsAccepted
    after_open-IsNext none r s h = absurd (ok≢err (sym h))
    after_open-IsNext (some p) r s h =
        let (s', all, e) = write_then-ok (lit "write plaintext: ") p (next r) s h in
        let (q, c, rest, framed, b, w) = sound r s' (sym (ap (λ z. z.0) e) ∙ h) in
        (
          p,
          q,
          c,
          rest,
          refl,
          framed,
          b,
          ap (λ z. z.1.written) e ∙ w ∙ ap (λ z. z ++ q) all ∙ append_assoc s.written p q,
        )

    after_nonce-IsNext :
        (len : ℕ) (nonce : Text) (r : Reader) (s : Sink)
        → (after_nonce a key next len nonce r s).0 ≡ ok tt
        → (p : Text) × (q : Text) × (ct : Text) × (c : Text) × (rest : Text) × (length ct ≡ len)
          × (a.open_sealed key nonce ct ≡ some p)
          × IsFramed a key q c
          × (r.bytes ≡ ct ++ (c ++ rest))
          × ((after_nonce a key next len nonce r s).1.written ≡ s.written ++ (p ++ q))
    unfolding after_nonce
    after_nonce-IsNext len nonce r s h =
        elim (read_then-cases (lit "read ciphertext: ")
          (λ ct. after_open a key next (a.open_sealed key nonce ct)) s len r) [
            | inr (_, bad) ↦ absurd (refuted bad h)
            | inl (ct, r1, n, b, e) ↦
                let (p, q, c, rest, o, framed, b1, w) =
                  after_open-IsNext (a.open_sealed key nonce ct) _ s (sym (ap (λ z. z.0) e) ∙ h) in
                (
                  p,
                  q,
                  ct,
                  c,
                  rest,
                  n,
                  o,
                  framed,
                  b ∙ ap (λ z. ct ++ z) b1,
                  ap (λ z. z.1.written) e ∙ w,
                )
          ]

    after_header-IsAccepted :
        (header : Text) (r : Reader) (s : Sink)
        → length header ≡ 4
        → (after_header a key next header r s).0 ≡ ok tt
        → IsAccepted (header ++ r.bytes) s.written (after_header a key next header r s).1.written
    unfolding after_header IsAccepted
    after_header-IsAccepted header r s n4 h = elim (Bool-cases (uint32 header == 0)) [
      | inl z ↦ (
        [],
        header,
        r.bytes,
        done header n4 (ground arith),
        refl,
        rw z (sym (append-nil s.written)),
      )
      | inr nz ↦
          let e : after_header a key next header r s
              ≡ read_then (lit "read nonce: ") nonce_size (after_nonce a key next (uint32 header)) r
                  s =
            rw nz refl in
          elim (read_then-cases (lit "read nonce: ") (after_nonce a key next (uint32 header)) s
            nonce_size r) [
              | inr (_, bad) ↦ absurd (refuted (e ∙ bad) h)
              | inl (nonce, r1, n12, b, e1) ↦
                  let (p, q, ct, c, rest, n, o, framed, b1, w) =
                    after_nonce-IsNext (uint32 header) nonce _ s
                      (sym (ap (λ z. z.0) (e ∙ e1)) ∙ h) in
                  (
                    p ++ q,
                    header ++ (nonce ++ (ct ++ c)),
                    rest,
                    frame header nonce ct p q c n4 (sym n) (ground arith) n12 o framed,
                    ap (λ z. header ++ z) (b ∙ ap (λ z. nonce ++ z) b1)
                        ∙ frame_assoc header nonce ct c rest,
                    ap (λ z. z.1.written) (e ∙ e1) ∙ w,
                  )
            ]
    ]

  pub decrypt_loop-IsAccepted : (fuel : ℕ) → IsSound (decrypt_loop a key fuel)
  unfolding decrypt_loop IsSound IsAccepted
  decrypt_loop-IsAccepted zero r s h = absurd (ok≢err (sym h))
  decrypt_loop-IsAccepted (suc fuel) r s h =
      elim (read_then-cases (lit "read frame length: ")
        (after_header a key (decrypt_loop a key fuel)) s 4 r) [
          | inr (_, bad) ↦ absurd (refuted bad h)
          | inl (header, r1, n4, b, e) ↦
              let (p, c, rest, framed, b1, w) =
                after_header-IsAccepted (decrypt_loop a key fuel) (decrypt_loop-IsAccepted fuel)
                  header _ s n4 (sym (ap (λ z. z.0) e) ∙ h) in
              (p, c, rest, framed, b ∙ b1, ap (λ z. z.1.written) e ∙ w)
        ]

  after_header-nonce :
      (next : Reader → Sink → Written) (header ct : Text) (r : Reader) (s : Sink)
      → uint32 header ≡ length ct
      → 0 < length ct
      → after_header a key next header r s
        ≡ read_then (lit "read nonce: ") nonce_size (after_nonce a key next (length ct)) r s
  unfolding after_header
  after_header-nonce next header ct r s u pos =
      let nz : (uint32 header == 0) ≡ false = ground arith in
      rw nz
        (ap (λ (n : ℕ). read_then (lit "read nonce: ") nonce_size (after_nonce a key next n) r s) u)

  after_open-some :
      (next : Reader → Sink → Written) (o : Option Text) (p w : Text) (r : Reader)
      → o ≡ some p
      → after_open a key next o r (endless w) ≡ next r (endless (w ++ p))
  unfolding after_open
  after_open-some next none p w r e = absurd (ground arith)
  after_open-some next (some p') p w r e =
      write_then-endless (lit "write plaintext: ") p' (next r) (endless w) refl
      ∙ ap (λ z. next r (endless (w ++ z))) (some_inj.0 e)

  -- Enough fuel decrypts the frames at the front, whatever stands behind them.
  pub decrypt_loop-IsFramed :
      (p c : Text) (fuel : ℕ) (rest : Text) (f : Option Text) (w : Text)
      → IsFramed a key p c
      → length c < fuel
      → decrypt_loop a key fuel (record { bytes = c ++ rest; fault = f }) (endless w)
        ≡ (ok tt, endless (w ++ p))
  unfolding decrypt_loop after_header after_nonce
  decrypt_loop-IsFramed p c zero rest f w framed enough = absurd (omega (arith, enough))
  decrypt_loop-IsFramed p c (suc fuel) rest f w (done header n4 z) enough =
      let z' : (uint32 header == 0) ≡ true = ground arith in
      read_then-append (lit "read frame length: ") (after_header a key (decrypt_loop a key fuel))
        (endless w) 4 header rest f n4
      ∙ rw z' (ap (λ z. (ok tt, endless z)) (sym (append-nil w)))
  decrypt_loop-IsFramed p c (suc fuel) rest f w
        (frame header nonce ct p1 q c1 n4 ux pos n12 o framed) enough =
      let next = decrypt_loop a key fuel in
      let s = endless w in
      let enough' : length c1 < fuel = omega (
        arith,
        enough,
        n4,
        length-append header (nonce ++ (ct ++ c1)),
        length-append nonce (ct ++ c1),
        length-append ct c1,
      ) in
      ap (λ z. decrypt_loop a key (suc fuel) (record { bytes = z; fault = f }) s)
        (sym (frame_assoc header nonce ct c1 rest))
      ∙ read_then-append (lit "read frame length: ") (after_header a key next) s 4 header _ f n4
      ∙ after_header-nonce next header ct _ s ux pos
      ∙ read_then-append (lit "read nonce: ") (after_nonce a key next (length ct)) s nonce_size
          nonce _ f n12
      ∙ read_then-append (lit "read ciphertext: ")
          (λ x. after_open a key next (a.open_sealed key nonce x)) s (length ct) ct _ f refl
      ∙ after_open-some next (a.open_sealed key nonce ct) p1 w _ o
      ∙ decrypt_loop-IsFramed q c1 fuel rest f (w ++ p1) framed enough'
      ∙ ap (λ z. (ok tt, endless z)) (append_assoc w p1 q)

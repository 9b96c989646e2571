-- ===== src/Crypto/Steps.antt =====
-- internal/crypto/crypto.go: one read, and one write, of `Encrypt` and `Decrypt`.
use backwyn.Prelude.{
  ℕ, ◌-◌, ◌≡◌, ◌≢◌, ◌⊎◌, inl, inr, ◌∙◌, refl, sym, ap, [], ◌∷◌, ◌++◌, Option, some, none, length,
  take, drop, length-append, take-append, drop-append, take-append-drop, length-take, leb, leb→le,
  Bool-cases, true, false, ok, err, arith,
}
use mathlib.Core.Path.{subst, ap₂}
use backwyn.Prelude.Text.{Text, lit, text_eq}
use backwyn.Storage.{Reader}
use backwyn.Crypto.Stream.{
  read_full, short_end, unexpected_text, full, eof, unexpected_eof, failed, write, Sink,
}
use backwyn.Crypto.Cipher.{Written, read_then, after_read, end_text, after_write, write_then}

pub read_full-enough :
    (n : ℕ) (r : Reader)
    → leb n (length r.bytes) ≡ true
    → read_full n r ≡ (take n r.bytes, full, record r { bytes = drop n r.bytes })
unfolding read_full
read_full-enough n r h = rw h refl

pub read_full-short :
    (n : ℕ) (r : Reader)
    → leb n (length r.bytes) ≡ false
    → read_full n r ≡ (r.bytes, short_end r.bytes r.fault, record r { bytes = [] })
unfolding read_full
read_full-short n r h = rw h refl

module _ (what : Text) (k : Text → Reader → Sink → Written) (s : Sink) where
  -- The end of a read that found too few bytes is an error.
  after_read-short :
      (bytes : Text) (fault : Option Text) (left : Reader)
      → (e : Text) × (after_read what (bytes, short_end bytes fault, left) k s ≡ (err e, s))
  unfolding after_read
  after_read-short (c ∷ bs) none left = (what ++ end_text unexpected_eof, refl)
  after_read-short [] none left = (what ++ end_text eof, refl)
  after_read-short bs (some e) left = elim (Bool-cases (text_eq e unexpected_text)) [
    | inl early ↦ (what ++ end_text unexpected_eof, rw early refl)
    | inr other ↦ (what ++ end_text (failed e), rw other refl)
  ]

  -- A read takes its bytes off the front, or fails because there are too few.
  pub read_then-cases :
      (n : ℕ) (r : Reader)
      → ((x : Text) × (rest : Text) × (length x ≡ n)
          × (r.bytes ≡ x ++ rest)
          × (read_then what n k r s ≡ k x (record { bytes = rest; fault = r.fault }) s))
        ⊎ ((e : Text) × (read_then what n k r s ≡ (err e, s)))
  unfolding read_then
  read_then-cases n r = elim (Bool-cases (leb n (length r.bytes))) [
    | inl enough ↦ inl (
      take n r.bytes,
      drop n r.bytes,
      omega (arith, length-take n r.bytes, leb→le n (length r.bytes) enough),
      sym (take-append-drop n r.bytes),
      ap (λ z. after_read what z k s) (read_full-enough n r enough),
    )
    | inr short ↦ inr (
        let (e, ends) = after_read-short r.bytes r.fault (record r { bytes = [] }) in
        (e, ap (λ z. after_read what z k s) (read_full-short n r short) ∙ ends))
  ]

  -- A read of as many bytes as a text has takes that text off.
  pub read_then-append :
      (n : ℕ) (x rest : Text) (f : Option Text)
      → length x ≡ n
      → read_then what n k (record { bytes = x ++ rest; fault = f }) s
        ≡ k x (record { bytes = rest; fault = f }) s
  unfolding read_then
  read_then-append n x rest f h =
      let r : Reader = record { bytes = x ++ rest; fault = f } in
      let enough : leb (length x) (length (x ++ rest)) ≡ true =
        ground (arith, length-append x rest) in
      subst (λ m. read_then what m k r s ≡ k x (record { bytes = rest; fault = f }) s) h
        (ap (λ z. after_read what z k s) (read_full-enough (length x) r enough)
          ∙ ap (λ (z : Text × Text). k z.0 (record { bytes = z.1; fault = f }) s)
              (ap₂ (λ u v. (u, v)) (take-append x rest) (drop-append x rest)))

pub ok≢err : {e : Text} → ok tt ≢ err e
ok≢err h = absurd (ground arith)

write-endless :
    (w p : Text) (room : Option ℕ)
    → room ≡ none
    → write p (record { written = w; room = room })
      ≡ (ok tt, record { written = w ++ p; room = none })
unfolding write
write-endless w p none h = refl
write-endless w p (some n) h = absurd (ground arith)

write-cases :
    (w p : Text) (room : Option ℕ)
    → let s : Sink = record { written = w; room = room } in
      ((s' : Sink) × (s'.written ≡ w ++ p) × (write p s ≡ (ok tt, s')))
      ⊎ ((e : Text) × (s' : Sink) × (write p s ≡ (err e, s')))
unfolding write
write-cases w p none = inl (record { written = w ++ p; room = none }, refl, refl)
write-cases w p (some n) = elim (Bool-cases (leb (length p) n)) [
  | inl fits ↦ inl (record { written = w ++ p; room = some (n - length p) }, refl, rw fits refl)
  | inr big ↦
      inr (lit "short write", record { written = w ++ take n p; room = some 0 }, rw big refl)
]

module _ (what p : Text) (k : Sink → Written) (s : Sink) where
  -- A write that does not fail has written everything.
  pub write_then-ok :
      (write_then what p k s).0 ≡ ok tt
      → (s' : Sink) × (s'.written ≡ s.written ++ p) × (write_then what p k s ≡ k s')
  unfolding write_then after_write
  write_then-ok h = elim (write-cases s.written p s.room) [
    | inl (s', all, e) ↦ (s', all, ap (λ z. after_write what z k) e)
    | inr (e, s', failing) ↦ absurd (ok≢err (sym h ∙ ap (λ z. (after_write what z k).0) failing))
  ]

  pub write_then-endless :
      s.room ≡ none → write_then what p k s ≡ k (record { written = s.written ++ p; room = none })
  unfolding write_then after_write
  write_then-endless h = ap (λ z. after_write what z k) (write-endless s.written p s.room h)

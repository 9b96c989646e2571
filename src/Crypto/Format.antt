-- ===== src/Crypto/Format.antt =====
-- The documented format of internal/crypto/crypto.go: frames of [uint32 len][12-byte nonce][ciphertext],
-- with a frame of no bytes at the end.
use mathlib.Core.List.{append_assoc, append-nil}
use backwyn.Prelude.{ℕ, ◌<◌, ◌≡◌, ◌∙◌, refl, sym, ap, List, [], ◌∷◌, ◌++◌, some, length, arith}
use backwyn.Prelude.Text.{Text}
use backwyn.Crypto.Stream.{uint32, put_uint32}
use backwyn.Crypto.Cipher.{Aead, nonce_size}

-- `IsFramed p c`: the frames of `c` open, under the key, to the text `p`.
pub data IsFramed (a : Aead) (key : Text) : Text → Text → Type 0 where
  done : (header : Text) → length header ≡ 4 → uint32 header ≡ 0 → IsFramed a key [] header
  frame :
      (header nonce ct p q c : Text)
      → length header ≡ 4
      → uint32 header ≡ length ct
      → 0 < length ct
      → length nonce ≡ nonce_size
      → a.open_sealed key nonce ct ≡ some p
      → IsFramed a key q c
      → IsFramed a key (p ++ q) (header ++ (nonce ++ (ct ++ c)))

pub append-split :
    {A : Type 0} (x y r s : List A) → length x ≡ length y → x ++ r ≡ y ++ s → (x ≡ y) × (r ≡ s)
append-split [] [] r s h e = (refl, e)
append-split [] (y ∷ ys) r s h e = absurd (omega (arith, h))
append-split (x ∷ xs) [] r s h e = absurd (omega (arith, h))
append-split (x ∷ xs) (y ∷ ys) r s h e =
    let (same, rest) = append-split xs ys r s (omega (arith, h)) (cc e) in (cc (e, same), rest)

pub length-put_uint32 : (n : ℕ) → length (put_uint32 n) ≡ 4
unfolding put_uint32
length-put_uint32 n = refl

module _ (a : Aead) (key : Text) where
  -- No artifact's frames are a proper prefix of another's.
  pub IsFramed-prefix :
      (p q c d w : Text) → IsFramed a key p c → IsFramed a key q d → d ≡ c ++ w → w ≡ []
  IsFramed-prefix p q c d w (done x hx zx) (done y hy zy) e =
      sym (append-split y x [] w (hy ∙ sym hx) (append-nil y ∙ e)).1
  IsFramed-prefix p q c d w (done x hx zx) (frame y n ct p2 q2 c2 hy uy pos hn ho fd) e =
      let (same, _) = append-split y x _ w (hy ∙ sym hx) e in
      absurd (omega (arith, pos, uy, ap uint32 same, zx))
  IsFramed-prefix p q c d w (frame x n ct p1 q1 c1 hx ux pos hn ho fc) (done y hy zy) e =
      let (same, _) = append-split y x [] _ (hy ∙ sym hx) (append-nil y ∙ e ∙ append_assoc x _ w) in
      absurd (omega (arith, pos, ux, ap uint32 same, zy))
  IsFramed-prefix p q c d w (frame x n ct p1 q1 c1 hx ux pos hn ho fc)
        (frame y n' ct' p2 q2 c2 hy uy pos' hn' ho' fd) e =
      let (same, e1) = append-split y x _ _ (hy ∙ sym hx) (e ∙ append_assoc x _ w) in
      let (_, e2) = append-split n' n _ _ (hn' ∙ sym hn) (e1 ∙ append_assoc n _ w) in
      let (_, e3) =
        append-split ct' ct _ _ (sym uy ∙ ap uint32 same ∙ ux) (e2 ∙ append_assoc ct c1 w) in
      IsFramed-prefix q1 q2 c1 c2 w fc fd e3

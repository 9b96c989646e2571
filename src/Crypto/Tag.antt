-- ===== src/Crypto/Tag.antt =====
-- A cipher for examples, which only appends a tag of the key: the laws that are asked of AES-GCM can
-- be kept.
use backwyn.Prelude.{
  ℕ, ◌-◌, ◌≡◌, refl, [], ◌∷◌, ◌++◌, none, some, length, length-append, length-take, take, drop,
  take-append, drop-append, if◌then◌else◌, ok, arith,
}
use backwyn.Prelude.Text.{Text, text_eq, text_eq_refl}
use backwyn.Crypto.Cipher.{Aead, IsAead, Random}

abbrev pub zeros16 : Text
zeros16 = 0 ∷ 0 ∷ 0 ∷ 0 ∷ 0 ∷ 0 ∷ 0 ∷ 0 ∷ 0 ∷ 0 ∷ 0 ∷ 0 ∷ 0 ∷ 0 ∷ 0 ∷ 0 ∷ []

unfoldable pub tag : Text → Text
unfolding take
tag key = take 16 (key ++ zeros16)

unfoldable pub tag_cipher : Aead
unfolding tag take drop text_eq
tag_cipher = record {
  seal = λ key nonce p. p ++ tag key;
  open_sealed = λ key nonce c.
      if text_eq (drop (length c - 16) c) (tag key) then some (take (length c - 16) c) else none;
}

length-tag : (key : Text) → length (tag key) ≡ 16
unfolding tag
length-tag key = omega (arith, length-take 16 (key ++ zeros16), length-append key zeros16)

pub tag_cipher-IsAead : IsAead tag_cipher
unfolding tag_cipher
tag_cipher-IsAead = record {
  open-seal = λ key nonce p.
      let cut : length (p ++ tag key) - 16 ≡ length p =
        omega (arith, length-append p (tag key), length-tag key) in
      rw (cut, take-append p (tag key), drop-append p (tag key), text_eq_refl (tag key)) refl;
  length-seal = λ key nonce p. omega (arith, length-append p (tag key), length-tag key);
}

abbrev pub key32 : Text
key32 = zeros16 ++ (7 ∷ 0 ∷ 0 ∷ 0 ∷ 0 ∷ 0 ∷ 0 ∷ 0 ∷ 0 ∷ 0 ∷ 0 ∷ 0 ∷ 0 ∷ 0 ∷ 0 ∷ 9 ∷ [])

abbrev pub nonce12 : Text
nonce12 = 1 ∷ 2 ∷ 3 ∷ 4 ∷ 5 ∷ 6 ∷ 7 ∷ 8 ∷ 9 ∷ 10 ∷ 11 ∷ 12 ∷ []

abbrev pub fixed_draws : Random
fixed_draws = λ i. ok nonce12

pub draws12 : (i : ℕ) (n : Text) → fixed_draws i ≡ ok n → length n ≡ 12
draws12 i n drawn = ground arith

-- ===== src/Crypto/Keyed.antt =====
-- internal/crypto/crypto.go: the key that `Encrypt` and `Decrypt` ask for.
use backwyn.Prelude.{
  ◌≡◌, inl, inr, ◌∙◌, refl, sym, ap, none, length, Bool-cases, Option-cases, true, ok, arith, ◌==◌,
  ==_iff,
}
use backwyn.Prelude.Text.{Text}
use backwyn.Crypto.Stream.{Sink}
use backwyn.Crypto.Cipher.{Written, key_error, unless_error, with_key}
use backwyn.Crypto.Steps.{ok≢err}

key_error-none : (key : Text) → length key ≡ 32 → key_error key ≡ none
unfolding key_error
key_error-none key h = let good : (length key == 32) ≡ true = ground arith in rw good refl

pub key_error-length : (key : Text) → key_error key ≡ none → length key ≡ 32
unfolding key_error
key_error-length key h = elim (Bool-cases (length key == 32)) [
  | inl good ↦ (==_iff (length key) 32).0 good
  | inr bad ↦ absurd (ground arith)
]

pub with_key-32 :
    (key : Text) (k : Sink → Written) (s : Sink) → length key ≡ 32 → with_key key k s ≡ k s
unfolding with_key unless_error
with_key-32 key k s h = ap (λ z. unless_error z k s) (key_error-none key h)

-- A function that succeeds was given a key that passes.
pub with_key-ok :
    (key : Text) (k : Sink → Written) (s : Sink)
    → (with_key key k s).0 ≡ ok tt
    → with_key key k s ≡ k s
unfolding with_key unless_error
with_key-ok key k s h = elim (Option-cases (key_error key)) [
  | inl good ↦ ap (λ z. unless_error z k s) good
  | inr (e, bad) ↦ absurd (ok≢err (sym h ∙ ap (λ z. (unless_error z k s).0) bad))
]

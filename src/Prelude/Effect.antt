-- ===== src/Prelude/Effect.antt =====
-- Functions with an error result that change a state, chained by `do`.
use mathlib.Core.Path.{◌≡◌, ap}
use backwyn.Prelude.Results.{Result, ok, err}
use backwyn.Prelude.Text.{Text}

abbrev pub Eff : Type 0 → Type 0 → Type 0
Eff S A = S → Result Text A × S

-- What follows a result and the state behind it.
abbrev pub after : {S A B : Type 0} → Result Text A × S → (A → Eff S B) → Result Text B × S
after (err e, s) f = (err e, s)
after (ok a, s) f = f a s

infixl 5 ◌>>=◌
abbrev pub ◌>>=◌ : {S A B : Type 0} → Eff S A → (A → Eff S B) → Eff S B
◌>>=◌ m f s = after (m s) f

infixl 5 ◌>>◌
abbrev pub ◌>>◌ : {S A B : Type 0} → Eff S A → Eff S B → Eff S B
m >> n = m >>= λ _. n

abbrev pub pure : {S A : Type 0} → A → Eff S A
pure a s = (ok a, s)

abbrev pub fail : {S A : Type 0} → Text → Eff S A
fail e s = (err e, s)

-- `if err != nil { return fmt.Errorf(...) }`
abbrev pub reworded : {S A : Type 0} → (Text → Text) → Result Text A × S → Result Text A × S
reworded f (err e, s) = (err (f e), s)
reworded f (ok a, s) = (ok a, s)

abbrev pub wrap : {S A : Type 0} → (Text → Text) → Eff S A → Eff S A
wrap f m s = reworded f (m s)

module _ {S A B : Type 0} (f : Text → Text) (m : Eff S A) (n : Eff S B) (s : S) where
  -- A step that fails ends the chain in the state it leaves.
  pub wrap-then-err : (e : Text) → (m s).0 ≡ err e → (wrap f m >> n) s ≡ (err (f e), (m s).1)
  wrap-then-err e h = ap (λ r. after (reworded f (r, (m s).1)) (λ _. n)) h

  -- After a step that succeeds the chain goes on.
  pub wrap-then-ok : (x : A) → (m s).0 ≡ ok x → (wrap f m >> n) s ≡ n (m s).1
  wrap-then-ok x h = ap (λ r. after (reworded f (r, (m s).1)) (λ _. n)) h

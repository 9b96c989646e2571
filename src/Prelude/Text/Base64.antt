-- ===== src/Prelude/Text/Base64.antt =====
-- `encoding/base64`'s `StdEncoding.DecodeString`: line ends are skipped, the last four digits may be
-- padded. Where it reports an error, the position of the error is left out.
use Prim.Native.Nat.{ℕ, ◌+◌, ◌-◌, ◌*◌, ◌/◌, ◌%◌}
use mathlib.Core.Bool.{Bool, true, false, ◌&&◌, ◌||◌}
use mathlib.Core.Path.{◌≡◌, refl}
use mathlib.Core.Option.{Option, none, some}
use mathlib.Core.List.{[], ◌∷◌, ◌++◌}
use backwyn.Prelude.Tests.{◌==◌, leb, if◌then◌else◌}
use backwyn.Prelude.Text.{Text, lit}

infixl 5 ◌>>=◌
abbrev ◌>>=◌ : {A B : Type 0} → Option A → (A → Option B) → Option B
◌>>=◌ o f = elim o [ none ↦ none | some a ↦ f a ]

-- The value of a digit.
unfoldable digit : ℕ → Option ℕ
digit c =
    if leb 65 c && leb c 90
    then some (c - 65)
    else if leb 97 c && leb c 122
    then some (c - 71)
    else if leb 48 c && leb c 57
    then some (c + 4)
    else if c == 43
    then some 62
    else if c == 47
    then some 63
    else none

abbrev bytes3 : ℕ → ℕ → ℕ → ℕ → Text
bytes3 a b c d = (a * 4 + b / 16) ∷ (b % 16 * 16 + c / 4) ∷ (c % 4 * 64 + d) ∷ []

-- Four digits, the last of which may be padding at the end of the text.
unfoldable quad : Bool → ℕ → ℕ → ℕ → ℕ → Option Text
unfolding digit
quad at_end x y z w = do
  a ← digit x
  b ← digit y
  if at_end && (z == 61 && w == 61) then some ((a * 4 + b / 16) ∷ []) else do
    c ← digit z
    if at_end && w == 61
        then some ((a * 4 + b / 16) ∷ (b % 16 * 16 + c / 4) ∷ [])
        else do d ← digit w; some (bytes3 a b c d)

abbrev is_nil : Text → Bool
is_nil [] = true
is_nil (c ∷ s) = false

quads : Text → Option Text
unfolding quad
quads [] = some []
quads (x ∷ y ∷ z ∷ w ∷ s) = do front ← quad (is_nil s) x y z w; rest ← quads s; some (front ++ rest)
quads _ = none

without_line_ends : Text → Text
without_line_ends [] = []
without_line_ends (c ∷ s) =
    let rest = without_line_ends s in if c == 10 || c == 13 then rest else c ∷ rest

unfoldable pub decode_base64 : Text → Option Text
unfolding quads without_line_ends
decode_base64 s = quads (without_line_ends s)

a_byte : decode_base64 (lit "TWFuTQ==") ≡ some (lit "ManM")
unfolding decode_base64 lit quad digit
a_byte = refl

-- ===== src/Alert/Runes.antt =====
-- Go strings as UTF-8: conversions to and from `[]rune`.
use mathlib.Core.List.{append_assoc}
use backwyn.Prelude.{
  ◌≡◌, refl, ap, ◌∙◌, inl, inr, ◌≤◌, ◌<◌, ℕ, zero, suc, ◌+◌, ◌-◌, ◌*◌, ◌/◌, ◌%◌, Bool, true, ◌&&◌,
  ◌||◌, List, [], ◌∷◌, ◌++◌, ltb, leb, ◌==◌, if◌then◌else◌, All, Bool-cases, arith, take,
}
use backwyn.Prelude.Text.{Text}

-- `utf8.RuneError`, in one byte
abbrev bad : ℕ × ℕ
bad = (65_533, 0)

abbrev within : ℕ → ℕ → ℕ → Bool
within low high b = leb low b && leb b high

abbrev is_tail : ℕ → Bool
is_tail b = leb 128 b && leb b 191

-- A rune of two, three or four bytes behind its first, and how many bytes follow that.
unfoldable pub two : ℕ → Text → ℕ × ℕ
two c [] = bad
two c (a ∷ s) = if is_tail a then ((c - 192) * 64 + (a - 128), 1) else bad

unfoldable pub three : ℕ → Text → ℕ × ℕ
three c [] = bad
three c (a ∷ []) = bad
three c (a ∷ b ∷ s) =
    let low = if c == 224 then 160 else 128 in
    let high = if c == 237 then 159 else 191 in
    if within low high a && is_tail b
    then ((c - 224) * 4_096 + (a - 128) * 64 + (b - 128), 2)
    else bad

unfoldable pub four : ℕ → Text → ℕ × ℕ
four c [] = bad
four c (a ∷ []) = bad
four c (a ∷ b ∷ []) = bad
four c (a ∷ b ∷ d ∷ s) =
    let low = if c == 240 then 144 else 128 in
    let high = if c == 244 then 143 else 191 in
    if within low high a && (is_tail b && is_tail d)
    then ((c - 240) * 262_144 + (a - 128) * 4_096 + (b - 128) * 64 + (d - 128), 3)
    else bad

-- `utf8.DecodeRuneInString`
unfoldable pub rune_at : ℕ → Text → ℕ × ℕ
unfolding two three four
rune_at c s =
    if ltb c 128
    then (c, 0)
    else if ltb c 194
    then bad
    else if ltb c 224
    then two c s
    else if ltb c 240
    then three c s
    else if ltb c 245
    then four c s
    else bad

-- The runes behind `skip` bytes.
unfoldable pub runes_behind : ℕ → Text → List ℕ
runes_behind skip [] = []
runes_behind (suc skip) (c ∷ s) = runes_behind skip s
runes_behind zero (c ∷ s) = let (r, more) = rune_at c s in r ∷ runes_behind more s

-- `[]rune(s)`
unfoldable pub runes : Text → List ℕ
unfolding runes_behind
runes s = runes_behind 0 s

-- A code point that UTF-8 can hold.
abbrev is_rune : ℕ → Bool
is_rune r = ltb r 55_296 || (leb 57_344 r && ltb r 1_114_112)

unfoldable pub encode_rune : ℕ → Text
encode_rune r =
    if ltb r 128
    then r ∷ []
    else if ltb r 2_048
    then (192 + r / 64) ∷ (128 + r % 64) ∷ []
    else if ltb r 65_536
    then (224 + r / 4_096) ∷ (128 + r / 64 % 64) ∷ (128 + r % 64) ∷ []
    else (240 + r / 262_144) ∷ (128 + r / 4_096 % 64) ∷ (128 + r / 64 % 64) ∷ (128 + r % 64) ∷ []

-- `string(rs)`; a value that is no rune becomes `utf8.RuneError`.
unfoldable pub string : List ℕ → Text
unfolding encode_rune
string [] = []
string (r ∷ rs) = encode_rune (if is_rune r then r else 65_533) ++ string rs

rune_two :
    (r : ℕ) (t : Text) → 128 ≤ r → r < 2_048 → rune_at (192 + r / 64) ((128 + r % 64) ∷ t) ≡ (r, 1)
unfolding rune_at
rune_two r t h g = ground arith

rune_three :
    (r : ℕ) (t : Text)
    → 2_048 ≤ r
    → r < 65_536
    → is_rune r ≡ true
    → rune_at (224 + r / 4_096) ((128 + r / 64 % 64) ∷ (128 + r % 64) ∷ t) ≡ (r, 2)
unfolding rune_at
rune_three r t h g v = ground arith

rune_four :
    (r : ℕ) (t : Text)
    → 65_536 ≤ r
    → r < 1_114_112
    → rune_at
        (240 + r / 262_144)
        ((128 + r / 4_096 % 64) ∷ (128 + r / 64 % 64) ∷ (128 + r % 64) ∷ t)
      ≡ (r, 3)
unfolding rune_at
rune_four r t h g = ground arith

-- Every rune that is read is one.
two-is_rune : (c : ℕ) (s : Text) → 194 ≤ c → c < 224 → is_rune (two c s).0 ≡ true
unfolding two
two-is_rune c [] h g = refl
two-is_rune c (a ∷ s) h g = ground arith

three-is_rune : (c : ℕ) (s : Text) → 224 ≤ c → c < 240 → is_rune (three c s).0 ≡ true
unfolding three
three-is_rune c [] h g = refl
three-is_rune c (a ∷ []) h g = refl
three-is_rune c (a ∷ b ∷ s) h g = ground arith

four-is_rune : (c : ℕ) (s : Text) → 240 ≤ c → c < 245 → is_rune (four c s).0 ≡ true
unfolding four
four-is_rune c [] h g = refl
four-is_rune c (a ∷ []) h g = refl
four-is_rune c (a ∷ b ∷ []) h g = refl
four-is_rune c (a ∷ b ∷ d ∷ s) h g = ground arith

rune_at-is_rune : (c : ℕ) (s : Text) → is_rune (rune_at c s).0 ≡ true
unfolding rune_at
rune_at-is_rune c s = ground (arith, two-is_rune c s, three-is_rune c s, four-is_rune c s)

-- Runes that UTF-8 can hold.
abbrev pub AreRunes : List ℕ → Type 0
AreRunes = All (λ r. is_rune r ≡ true)

runes_behind-AreRunes : (skip : ℕ) (s : Text) → AreRunes (runes_behind skip s)
unfolding runes_behind
runes_behind-AreRunes skip [] = tt
runes_behind-AreRunes (suc skip) (c ∷ s) = runes_behind-AreRunes skip s
runes_behind-AreRunes zero (c ∷ s) = (rune_at-is_rune c s, runes_behind-AreRunes (rune_at c s).1 s)

pub runes-AreRunes : (s : Text) → AreRunes (runes s)
unfolding runes
runes-AreRunes s = runes_behind-AreRunes 0 s

pub take-AreRunes : (n : ℕ) (rs : List ℕ) → AreRunes rs → AreRunes (take n rs)
unfolding take
take-AreRunes zero rs h = tt
take-AreRunes (suc n) [] h = tt
take-AreRunes (suc n) (r ∷ rs) h = (h.0, take-AreRunes n rs h.1)

-- The first rune of a string, read.
runes_step :
    (c r more : ℕ) (s : Text)
    → rune_at c s ≡ (r, more)
    → runes_behind 0 (c ∷ s) ≡ r ∷ runes_behind more s
unfolding runes_behind
runes_step c r more s h = ap (λ p. p.0 ∷ runes_behind p.1 s) h

runes_one : (r : ℕ) (t : Text) → r < 128 → rune_at r t ≡ (r, 0)
unfolding rune_at
runes_one r t h = ground arith

runes-encode_rune :
    (r : ℕ) (t : Text)
    → is_rune r ≡ true
    → runes_behind 0 (encode_rune r ++ t) ≡ r ∷ runes_behind 0 t
unfolding encode_rune runes_behind
runes-encode_rune r t h = elim (Bool-cases (ltb r 128)) [
  | inl one ↦ rw one (runes_step r r 0 t (runes_one r t (ground arith)))
  | inr n1 ↦ elim (Bool-cases (ltb r 2_048)) [
    | inl short ↦
        rw (n1, short)
          (runes_step (192 + r / 64) r 1 ((128 + r % 64) ∷ t)
            (rune_two r t (ground arith) (ground arith)))
    | inr n2 ↦ elim (Bool-cases (ltb r 65_536)) [
      | inl middle ↦
          rw (n1, n2, middle)
            (runes_step (224 + r / 4_096) r 2 ((128 + r / 64 % 64) ∷ (128 + r % 64) ∷ t)
              (rune_three r t (ground arith) (ground arith) h))
      | inr n3 ↦
          rw (n1, n2, n3)
            (runes_step (240 + r / 262_144) r 3
              ((128 + r / 4_096 % 64) ∷ (128 + r / 64 % 64) ∷ (128 + r % 64) ∷ t)
              (rune_four r t (ground arith) (ground arith)))
    ]
  ]
]

-- The runes of a string that is made of runes are those, and then those of what follows it.
pub runes-string : (rs : List ℕ) (t : Text) → AreRunes rs → runes (string rs ++ t) ≡ rs ++ runes t
unfolding runes string
runes-string [] t h = refl
runes-string (r ∷ rs) t h = rw h.0 (
    ap (runes_behind 0) (append_assoc (encode_rune r) (string rs) t)
    ∙ (runes-encode_rune r (string rs ++ t) h.0 ∙ ap (◌∷◌ r) (runes-string rs t h.1)))

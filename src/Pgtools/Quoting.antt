-- ===== src/Pgtools/Quoting.antt =====
-- internal/pgtools/pgtools.go: what `quoteLiteral` and `quoteIdent` write reads back, and how SQL reads
-- the scope of `RLSUncoveredTables`.
use mathlib.Core.Path.{subst}
use mathlib.Core.List.{append_assoc}
use backwyn.Prelude.{
  ℕ, ◌≡◌, ◌≢◌, refl, sym, ◌∙◌, ap, true, false, Bool-cases, List, map, ◌⊎◌, Option, none, some, [],
  ◌∷◌, ◌++◌, ◌==◌, ==_iff, arith, inl, inr, if◌then◌else◌,
}
use backwyn.Prelude.Text.{Text, lit, join}
use backwyn.Pgtools.Sql.{clean_idents, doubled, quote_literal, quote_ident}
use backwyn.Pgtools.Client.{rls_scope}

abbrev onto : ℕ → Option (Text × Text) → Option (Text × Text)
onto c none = none
onto c (some (s, rest)) = some (c ∷ s, rest)

-- The text up to a single quote `q`, where two stand for one, and what follows it.
unfoldable pub read_quoted : ℕ → Text → Option (Text × Text)
read_quoted q [] = none
read_quoted q (x ∷ []) = if x == q then some ([], []) else none
read_quoted q (x ∷ y ∷ s) =
    let pair = read_quoted q s in
    let plain = read_quoted q (y ∷ s) in
    if x == q then (if y == q then onto q pair else some ([], y ∷ s)) else onto x plain

-- A token in the quotes `q`.
unfoldable pub read_token : ℕ → Text → Option (Text × Text)
unfolding read_quoted
read_token q [] = none
read_token q (c ∷ s) = if c == q then read_quoted q s else none

-- What follows does not start with the quote.
unfoldable pub IsApart : ℕ → Text → Type 0
IsApart q [] = Unit
IsApart q (c ∷ s) = c ≢ q

read_quoted-plain :
    (q x : ℕ) (t : Text) → (x == q) ≡ false → read_quoted q (x ∷ t) ≡ onto x (read_quoted q t)
unfolding read_quoted
read_quoted-plain q x [] h = rw h refl
read_quoted-plain q x (y ∷ t) h = rw h refl

same : (q : ℕ) → (q == q) ≡ true
same q = (==_iff q q).1 refl

read_quoted-doubled :
    (q : ℕ) (s rest : Text)
    → IsApart q rest
    → read_quoted q (doubled q s ++ (q ∷ rest)) ≡ some (s, rest)
unfolding read_quoted doubled IsApart
read_quoted-doubled q [] [] apart = rw (same q) refl
read_quoted-doubled q [] (c ∷ rest) apart =
    let other : (c == q) ≡ false = ground arith in rw (same q, other) refl
read_quoted-doubled q (x ∷ s) rest apart = elim (Bool-cases (x == q)) [
  | inl quote ↦
      let e : x ≡ q = (==_iff x q).0 quote in
      rw quote
        (rw quote (rw (read_quoted-doubled q s rest apart) (ap (λ z. some (z ∷ s, rest)) (sym e))))
  | inr plain ↦ rw plain (
      read_quoted-plain q x (doubled q s ++ (q ∷ rest)) plain
      ∙ rw (read_quoted-doubled q s rest apart) refl)
]

-- What `quoteLiteral` and `quoteIdent` write reads back up to the quote that ends it, if what follows
-- does not start with a quote.
read_token-quoted :
    (s rest : Text)
    → IsApart 39 rest
    → IsApart 34 rest
    → (read_token 39 (quote_literal s ++ rest) ≡ some (s, rest))
      × (read_token 34 (quote_ident s ++ rest) ≡ some (s, rest))
unfolding read_token quote_literal quote_ident
read_token-quoted s rest apart39 apart34 = (
  ap (read_quoted 39) (append_assoc (doubled 39 s) (39 ∷ []) rest)
      ∙ read_quoted-doubled 39 s rest apart39,
  ap (read_quoted 34) (append_assoc (doubled 34 s) (34 ∷ []) rest)
      ∙ read_quoted-doubled 34 s rest apart34,
)

-- The names in a list of SQL: each a constant in single quotes, in which two stand for one, and behind
-- it a comma with the next one, or the closing parenthesis. Such a constant stands for itself: SQL joins
-- constants only across white space with a new line, and a backslash is a byte like any other there, as
-- standard_conforming_strings has it.
pub data IsListOf : List Text → Text → Type 0 where
  last_name : (s t : Text) → read_token 39 t ≡ some (s, lit ") ") → IsListOf (s ∷ []) t
  next_name :
      (s t rest : Text) (ss : List Text)
      → read_token 39 t ≡ some (s, lit ", " ++ rest)
      → IsListOf ss rest
      → IsListOf (s ∷ ss) t

names-IsListOf :
    (c : Text) (clean : List Text)
    → IsListOf (c ∷ clean) (join (map quote_literal (c ∷ clean)) (lit ", ") ++ lit ") ")
unfolding join lit IsApart
names-IsListOf c [] =
    last_name c (quote_literal c ++ lit ") ")
      (read_token-quoted c (lit ") ") (λ e. absurd (omega (arith, e)))
        (λ e. absurd (omega (arith, e)))).0
names-IsListOf c (d ∷ clean) =
    let tail = join (map quote_literal (d ∷ clean)) (lit ", ") ++ lit ") " in
    let read =
      (read_token-quoted c (lit ", " ++ tail) (λ e. absurd (omega (arith, e)))
        (λ e. absurd (omega (arith, e)))).0 in
    subst (IsListOf (c ∷ d ∷ clean))
      (sym (
        append_assoc (quote_literal c) (lit ", " ++ join (map quote_literal (d ∷ clean)) (lit ", "))
          (lit ") ")))
      (next_name c (quote_literal c ++ (lit ", " ++ tail)) tail (d ∷ clean) read
        (names-IsListOf d clean))

-- The scope for the names that are left.
scope_of :
    (schemas ids : List Text)
    → clean_idents schemas ≡ ids
    → ((ids ≡ []) × (rls_scope schemas ≡ []))
      ⊎ ((t : Text) × (rls_scope schemas ≡ lit "AND n.nspname IN (" ++ t) × IsListOf ids t)
unfolding rls_scope
scope_of schemas [] e = inl (refl, rw (rls_scope, e) refl)
scope_of schemas (c ∷ clean) e = inr (
  join (map quote_literal (c ∷ clean)) (lit ", ") ++ lit ") ",
  rw (rls_scope, e) refl,
  names-IsListOf c clean,
)

-- Without names the scope of `RLSUncoveredTables` is empty. Otherwise it opens a list, which is one of the
-- names that `cleanIdents` gives, in their order, and of nothing else, whatever bytes they have.
pub rls_scope-IsListOf :
    (schemas : List Text)
    → ((clean_idents schemas ≡ []) × (rls_scope schemas ≡ []))
      ⊎ ((t : Text) × (rls_scope schemas ≡ lit "AND n.nspname IN (" ++ t)
          × IsListOf (clean_idents schemas) t)
rls_scope-IsListOf schemas = scope_of schemas (clean_idents schemas) refl

-- ===== src/Pgtools/Sql.antt =====
-- internal/pgtools/pgtools.go: quoting, lists of names, the arguments of pg_dump, and the filter on
-- the table of contents of an archive.
use backwyn.Prelude.{
  ℕ, Bool, true, false, ◌||◌, ◌&&◌, List, [], ◌∷◌, ◌++◌, length, drop, ◌==◌, leb, if◌then◌else◌,
}
use backwyn.Prelude.Text.{Text, lit, join, text_eq, has_prefix}
use backwyn.Prelude.Text.Split.{split, trim_space}

-- `strings.ReplaceAll` of the byte `c` by itself, twice.
unfoldable pub doubled : ℕ → Text → Text
doubled c [] = []
doubled c (x ∷ s) = let rest = doubled c s in if x == c then x ∷ x ∷ rest else x ∷ rest

-- `quoteIdent`
unfoldable pub quote_ident : Text → Text
unfolding doubled
quote_ident id = 34 ∷ (doubled 34 id ++ (34 ∷ []))

-- `quoteLiteral`
unfoldable pub quote_literal : Text → Text
unfolding doubled
quote_literal s = 39 ∷ (doubled 39 s ++ (39 ∷ []))

abbrev is_blank : Text → Bool
is_blank [] = true
is_blank (c ∷ s) = false

-- `cleanIdents`
unfoldable pub clean_idents : List Text → List Text
unfolding trim_space
clean_idents [] = []
clean_idents (s ∷ ids) =
    let rest = clean_idents ids in if is_blank (trim_space s) then rest else trim_space s ∷ rest

-- The loop of `DumpArgs` over the schemas.
unfoldable pub schema_args : List Text → List Text
unfolding trim_space
schema_args [] = []
schema_args (s ∷ schemas) =
    let rest = schema_args schemas in
    if is_blank (trim_space s) then rest else lit "-n" ∷ trim_space s ∷ rest

-- `DumpArgs`
unfoldable pub dump_args : Text → Text → List Text → Bool → List Text
unfolding schema_args
dump_args dsn out_path schemas row_security =
    (lit "--format=custom" ∷ lit "--no-owner" ∷ lit "--no-privileges" ∷ [])
    ++ ((if row_security then lit "--enable-row-security" ∷ [] else [])
        ++ (schema_args schemas ++ (lit "--file" ∷ out_path ∷ lit "--dbname" ∷ dsn ∷ [])))

abbrev is_digit : ℕ → Bool
is_digit c = leb 48 c && leb c 57

-- Behind `\d*`.
unfoldable digits_off : Text → Text
digits_off [] = []
digits_off (c ∷ s) = let rest = digits_off s in if is_digit c then rest else c ∷ s

abbrev starts_with_digit : Text → Bool
starts_with_digit [] = false
starts_with_digit (c ∷ s) = is_digit c

-- `POLICY |SCHEMA - public( |$)` at the start
unfoldable is_unrestorable : Text → Bool
unfolding has_prefix text_eq
is_unrestorable s =
    has_prefix s (lit "POLICY ")
    || (has_prefix s (lit "SCHEMA - public ") || text_eq s (lit "SCHEMA - public"))

-- `\d+` and then the literal `p`, with `k` for what follows.
unfoldable after_number : Text → (Text → Bool) → Text → Bool
unfolding digits_off has_prefix drop
after_number p k s =
    starts_with_digit s && (has_prefix (digits_off s) p && k (drop (length p) (digits_off s)))

-- `sandboxSkip.MatchString`
unfoldable pub sandbox_skip : Text → Bool
unfolding after_number is_unrestorable
sandbox_skip =
    after_number (lit "; ") (after_number (lit " ") (after_number (lit " ") is_unrestorable))

-- The lines of `FilterSandboxTOC`
unfoldable pub filter_lines : List Text → List Text
unfolding sandbox_skip
filter_lines [] = []
filter_lines (l ∷ lines) = (if sandbox_skip l then 59 ∷ l else l) ∷ filter_lines lines

-- `FilterSandboxTOC`
unfoldable pub filter_sandbox_toc : Text → Text
unfolding filter_lines split join
filter_sandbox_toc toc = join (filter_lines (split toc 10)) (lit "\n")

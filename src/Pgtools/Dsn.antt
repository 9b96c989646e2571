-- ===== src/Pgtools/Dsn.antt =====
-- internal/pgtools/pgtools.go: the functions that take a connection string apart. `Urls` is `net/url`
-- and the folding of cases.
use backwyn.Prelude.{Bool, true, ◌&&◌, [], ◌∷◌, ◌++◌, Result, ok, err}
use backwyn.Prelude.Text.{Text, lit, text_eq, trim_prefix}

-- What a parsed URL shows of its host and path, and how it is printed with another path.
pub record Url : Type 0 where
  pub host : Text
  pub path : Text
  pub with_path : Text → Text

-- `url.Parse`, and `strings.EqualFold`, which goes by the tables of Unicode.
pub record Urls : Type 0 where
  pub parse_url : Text → Result Text Url
  pub equal_fold : Text → Text → Bool

-- `WithDatabase`
unfoldable pub with_database : Urls → Text → Text → Result Text Text
with_database urls dsn db = elim (urls.parse_url dsn) [
  | err e ↦ err (lit "parse DSN: " ++ e)
  | ok u ↦ ok (u.with_path (lit "/" ++ db))
]

-- `SameTarget`
unfoldable pub same_target : Urls → Text → Text → Bool
unfolding text_eq
same_target urls a b = elim (urls.parse_url a) [
  | err e ↦ true
  | ok ua ↦ elim (urls.parse_url b) [
    | err e ↦ true
    | ok ub ↦ urls.equal_fold ua.host ub.host && text_eq ua.path ub.path
  ]
]

-- `SourceLabel` of a parsed connection string
abbrev label_of : Text → Text → Text
label_of host [] = host
label_of host (c ∷ db) = host ++ (lit "/" ++ (c ∷ db))

-- `SourceLabel`
unfoldable pub source_label : Urls → Text → Text
unfolding trim_prefix
source_label urls dsn = elim (urls.parse_url dsn) [
  | err e ↦ lit "unknown"
  | ok u ↦ label_of u.host (trim_prefix u.path (lit "/"))
]

-- ===== src/Config.antt =====
-- internal/config/config.go: the configuration, read from the environment and validated. The
-- environment is a function, empty where a variable is not set, as `os.Getenv` has it.
pub mod Loaded
mod Tests
use backwyn.Prelude.{
  ℕ, ◌+◌, Bool, true, false, not, ◌||◌, Option, none, some, List, [], ◌∷◌, ◌++◌, Result, ok, err,
  ◌>>=◌, ◌>>◌, length, ◌==◌, ◌&&◌, leb, if◌then◌else◌,
}
use backwyn.Prelude.Text.{Text, lit, text_eq}
use backwyn.Prelude.Text.Base64.{decode_base64}
use backwyn.Prelude.Text.Split.{split, trim_space}

pub record S3Config : Type 0 where
  pub bucket : Text
  pub endpoint : Text
  pub region : Text
  pub access_key : Text
  pub secret_key : Text
  pub path_style : Bool

pub record Config : Type 0 where
  pub source_dsn : Text
  pub encryption_key : Text
  pub verify_admin_dsn : Text
  pub backend : Text
  pub storage_dir : Text
  pub s3 : S3Config
  pub alert_webhook : Text
  pub verify_query : Text
  pub dump_schemas : List Text
  pub dump_row_security : Bool

abbrev pub Environment : Type 0
Environment = Text → Text

abbrev pub is_blank : Text → Bool
is_blank [] = true
is_blank (c ∷ s) = false

-- `splitList`: the loop over the parts
unfoldable pub kept_parts : List Text → List Text
unfolding trim_space
kept_parts [] = []
kept_parts (s ∷ parts) =
    let rest = kept_parts parts in if is_blank (trim_space s) then rest else trim_space s ∷ rest

unfoldable pub split_list : Text → List Text
unfolding kept_parts split
split_list v = kept_parts (split v 44)

-- The errors of `Load`, each with what its text shows; `%q` is left unquoted.
pub data ConfigError : Type 0 where
  no_source : ConfigError
  no_storage_dir : ConfigError
  no_bucket : ConfigError
  no_credentials : ConfigError
  unknown_backend : Text → ConfigError
  no_key : ConfigError
  not_base64 : ConfigError
  bad_key_length : ℕ → ConfigError

-- `getDefault`
unfoldable pub get_default : Environment → Text → Text → Text
get_default env key def = let v = env key in if not (is_blank v) then v else def

-- The literal at the top of `Load`.
unfoldable pub from_env : Environment → Config
unfolding text_eq get_default split_list
from_env env = record {
  source_dsn = env (lit "BACKWYN_SOURCE_DSN");
  encryption_key = [];
  verify_admin_dsn = env (lit "BACKWYN_VERIFY_ADMIN_DSN");
  backend = get_default env (lit "BACKWYN_STORAGE") (lit "local");
  storage_dir = env (lit "BACKWYN_STORAGE_DIR");
  s3 = record {
    bucket = env (lit "BACKWYN_S3_BUCKET");
    endpoint = env (lit "BACKWYN_S3_ENDPOINT");
    region = get_default env (lit "BACKWYN_S3_REGION") (lit "auto");
    access_key = env (lit "BACKWYN_S3_ACCESS_KEY");
    secret_key = env (lit "BACKWYN_S3_SECRET_KEY");
    path_style = text_eq (env (lit "BACKWYN_S3_PATH_STYLE")) (lit "true");
  };
  alert_webhook = env (lit "BACKWYN_ALERT_WEBHOOK");
  verify_query = env (lit "BACKWYN_VERIFY_QUERY");
  dump_schemas = split_list (env (lit "BACKWYN_DUMP_SCHEMAS"));
  dump_row_security = text_eq (env (lit "BACKWYN_DUMP_ROW_SECURITY")) (lit "true");
}

-- The `switch` on the backend.
unfoldable pub check_backend : Config → Result ConfigError (Unit {0})
unfolding text_eq
check_backend c =
    if text_eq c.backend (lit "local")
    then (if is_blank c.storage_dir then err no_storage_dir else ok tt)
    else if text_eq c.backend (lit "s3")
    then (if is_blank c.s3.bucket
        then err no_bucket
        else if is_blank c.s3.access_key || is_blank c.s3.secret_key
        then err no_credentials
        else ok tt)
    else err (unknown_backend c.backend)

-- The key, from the text of the variable.
unfoldable pub read_key : Text → Result ConfigError Text
unfolding decode_base64
read_key raw = if is_blank raw then err no_key else elim (decode_base64 raw) [
  | none ↦ err not_base64
  | some key ↦ if length key == 32 then ok key else err (bad_key_length (length key))
]

-- `Load` behind its literal, with the text of the variable of the key.
unfoldable pub checked : Config → Text → Result ConfigError Config
unfolding check_backend read_key
checked c raw =
    if is_blank c.source_dsn
    then err no_source
    else check_backend c >> do key ← read_key raw; ok (record c { encryption_key = key })

-- `Load`
unfoldable pub load : Environment → Result ConfigError Config
unfolding from_env checked
load env = checked (from_env env) (env (lit "BACKWYN_ENCRYPTION_KEY"))

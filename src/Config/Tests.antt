-- ===== src/Config/Tests.antt =====
-- internal/config/config.go: an environment for the local backend.
use backwyn.Prelude.{◌≡◌, ◌≢◌, ◌↔◌, refl, [], ◌∷◌, ◌++◌, some, ok, length, if◌then◌else◌}
use backwyn.Prelude.Text.{Text, lit, text_eq}
use backwyn.Prelude.Text.Split.{split, trim_space}
use backwyn.Prelude.Text.Base64.{decode_base64}
use backwyn.Config.{
  checked, check_backend, read_key, get_default, split_list, kept_parts, Environment, from_env,
  load,
}
use backwyn.Config.Loaded.{IsUsable, load_iff}

abbrev local_env : Environment
local_env v =
    if text_eq v (lit "BACKWYN_SOURCE_DSN")
    then lit "postgres://db/app"
    else if text_eq v (lit "BACKWYN_STORAGE_DIR")
    then lit "/var/backups"
    else if text_eq v (lit "BACKWYN_DUMP_SCHEMAS")
    then lit "public, audit,,"
    else if text_eq v (lit "BACKWYN_ENCRYPTION_KEY")
    then lit "AAAAAAAAAAAAAAAAAAAAAAAAAAAAAAAAAAAAAAAAAAA="
    else []

abbrev zeros16 : Text
zeros16 = 0 ∷ 0 ∷ 0 ∷ 0 ∷ 0 ∷ 0 ∷ 0 ∷ 0 ∷ 0 ∷ 0 ∷ 0 ∷ 0 ∷ 0 ∷ 0 ∷ 0 ∷ 0 ∷ []

abbrev zeros32 : Text
zeros32 = zeros16 ++ zeros16

schemas_split : (from_env local_env).dump_schemas ≡ lit "public" ∷ lit "audit" ∷ []
unfolding from_env split_list kept_parts split trim_space lit text_eq
schemas_split = refl

load_iff_example :
    (load local_env ≡ ok (record (from_env local_env) { encryption_key = zeros32 })) ↔ (
      (key : Text) × ((from_env local_env).source_dsn ≢ [])
      × IsUsable (from_env local_env)
      × (decode_base64 (local_env (lit "BACKWYN_ENCRYPTION_KEY")) ≡ some key)
      × (length key ≡ 32)
      × (record (from_env local_env) { encryption_key = key }
          ≡ record (from_env local_env) { encryption_key = zeros32 }))
load_iff_example = load_iff local_env (record (from_env local_env) { encryption_key = zeros32 })

loads : load local_env ≡ ok (record (from_env local_env) { encryption_key = zeros32 })
unfolding load checked from_env check_backend read_key decode_base64 lit text_eq get_default
loads = refl

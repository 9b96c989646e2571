-- ===== src/Config/Loaded.antt =====
-- What a configuration that `Load` returns has, and when it returns one.
use mathlib.Core.Option.{some_inj}
use backwyn.Prelude.{
  ℕ, ◌≡◌, ◌≢◌, ◌↔◌, ◌⊎◌, inl, inr, sym, ap, ◌∙◌, false, Bool-cases, Option-cases, Result,
  Result-cases, some, [], ◌∷◌, ok, err, length, arith, ◌==◌, if◌then◌else◌,
}
use backwyn.Prelude.Text.{Text, lit, text_eq, text_eq_iff}
use backwyn.Prelude.Text.Base64.{decode_base64}
use backwyn.Config.{
  Config, Environment, ConfigError, is_blank, bad_key_length, from_env, check_backend, read_key,
  checked, load,
}

-- A backend that is known, with all that it needs.
pub IsUsable : Config → Type 0
IsUsable c =
    ((c.backend ≡ lit "local") × (c.storage_dir ≢ []))
    ⊎ ((c.backend ≡ lit "s3")
        × (c.s3.bucket ≢ [])
        × (c.s3.access_key ≢ [])
        × (c.s3.secret_key ≢ []))

blank_iff : (s : Text) → (is_blank s ≡ false) ↔ (s ≢ [])
blank_iff [] = ground arith
blank_iff (c ∷ s) = ground arith

local≢s3 : lit "local" ≢ lit "s3"
unfolding lit
local≢s3 = ground arith

check_backend-IsUsable : (c : Config) → (check_backend c ≡ ok tt) ↔ IsUsable c
unfolding check_backend IsUsable
check_backend-IsUsable c = elim (Bool-cases (text_eq c.backend (lit "local"))) [
  | inl local ↦
      let here = (text_eq_iff c.backend (lit "local")).0 local in
      let other : c.backend ≢ lit "s3" = λ e. local≢s3 (sym here ∙ e) in
      rw local (ground (arith, here, other, blank_iff c.storage_dir))
  | inr elsewhere ↦
      let other : c.backend ≢ lit "local" =
        λ e. absurd (ground (arith, elsewhere, (text_eq_iff c.backend (lit "local")).1 e)) in
      elim (Bool-cases (text_eq c.backend (lit "s3"))) [
        | inl s3 ↦
            let here = (text_eq_iff c.backend (lit "s3")).0 s3 in
            rw (elsewhere, s3)
              (ground (
                arith,
                here,
                other,
                blank_iff c.s3.bucket,
                blank_iff c.s3.access_key,
                blank_iff c.s3.secret_key,
              ))
        | inr unknown ↦
            let neither : c.backend ≢ lit "s3" =
              λ e. absurd (ground (arith, unknown, (text_eq_iff c.backend (lit "s3")).1 e)) in
            rw (elsewhere, unknown) (ground (arith, other, neither))
      ]
]

-- The length of the key, once it is decoded.
sized : ℕ → Text → Result ConfigError Text
sized n key = if n == 32 then ok key else err (bad_key_length n)

sized_iff : (n : ℕ) (k key : Text) → (sized n k ≡ ok key) ↔ ((n ≡ 32) × (k ≡ key))
unfolding sized
sized_iff n k key = ground arith

read_key_iff :
    (raw key : Text)
    → (read_key raw ≡ ok key) ↔ ((decode_base64 raw ≡ some key) × (length key ≡ 32))
unfolding read_key sized
read_key_iff [] key =
    (λ h. absurd (ground arith), λ h. absurd (omega (arith, ap length (some_inj.0 h.0), h.1)))
read_key_iff (c ∷ raw) key = elim (Option-cases (decode_base64 (c ∷ raw))) [
  | inl bad ↦ rw bad (ground arith)
  | inr (k, good) ↦ rw good (ground (arith, sized_iff (length k) k key))
]

checked_iff :
    (c0 : Config) (raw : Text) (c : Config)
    → (checked c0 raw ≡ ok c) ↔ (
        (key : Text) × (c0.source_dsn ≢ [])
        × IsUsable c0
        × (decode_base64 raw ≡ some key)
        × (length key ≡ 32)
        × (record c0 { encryption_key = key } ≡ c))
unfolding checked
checked_iff c0 raw c = elim (Bool-cases (is_blank c0.source_dsn)) [
  | inl blank ↦
      (λ h. absurd (ground arith), λ h. absurd (ground (arith, (blank_iff c0.source_dsn).1 h.1)))
  | inr set ↦ elim (Result-cases (check_backend c0)) [
    | inr (e, refused) ↦ (
      λ h. absurd (ground arith),
      λ h. absurd (ground (arith, (check_backend-IsUsable c0).1 h.2)),
    )
    | inl (_, usable) ↦ elim (Result-cases (read_key raw)) [
      | inr (e, refused) ↦ (
        λ h. absurd (ground arith),
        λ h. absurd (ground (arith, (read_key_iff raw h.0).1 (h.3, h.4))),
      )
      | inl (key, read) ↦ (
        λ h.
            let (decoded, sized32) = (read_key_iff raw key).0 read in
            (
              key,
              (blank_iff c0.source_dsn).0 set,
              (check_backend-IsUsable c0).0 usable,
              decoded,
              sized32,
              ground arith,
            ),
        λ h. let read' = (read_key_iff raw h.0).1 (h.3, h.4) in rw (set, usable, read') (ap ok h.5),
      )
    ]
  ]
]

-- `Load` returns a configuration exactly when the source is set, the backend is known and has all
-- that it needs, and the key is base64 of 32 bytes; it is then the environment's, with that key.
pub load_iff :
    (env : Environment) (c : Config)
    → (load env ≡ ok c) ↔ (
        (key : Text) × ((from_env env).source_dsn ≢ [])
        × IsUsable (from_env env)
        × (decode_base64 (env (lit "BACKWYN_ENCRYPTION_KEY")) ≡ some key)
        × (length key ≡ 32)
        × (record (from_env env) { encryption_key = key } ≡ c))
unfolding load
load_iff env c = checked_iff (from_env env) (env (lit "BACKWYN_ENCRYPTION_KEY")) c

-- ===== src/Retention/Policy.antt =====
-- internal/retention/retention.go: the policy, and a plan with its readers.
use backwyn.Prelude.{
  zero, suc, ◌+◌, ◌%◌, ◌^◌, Bool, true, false, not, ◌&&◌, List, [], ◌∷◌, if◌then◌else◌,
}
use backwyn.Prelude.Int.{ℤ, pos, negsuc}
use backwyn.Prelude.Text.{Text}
use backwyn.Manifest.{Manifest, Int64}

pub record Policy : Type 0 where
  pub keep_last : ℤ
  pub keep_daily : ℤ
  pub keep_weekly : ℤ
  pub keep_monthly : ℤ

abbrev eq_zero : ℤ → Bool
eq_zero (pos zero) = true
eq_zero (pos (suc n)) = false
eq_zero (negsuc n) = false

-- `IsZero`
unfoldable pub is_zero : Policy → Bool
is_zero p =
    eq_zero p.keep_last
    && (eq_zero p.keep_daily && (eq_zero p.keep_weekly && eq_zero p.keep_monthly))

pub record Decision : Type 0 where
  pub manifest : Manifest
  pub keep : Bool
  pub reason : Text

pub record Plan : Type 0 where
  pub decisions : List Decision
  pub warnings : List Text

unfoldable pub removed : List Decision → List Manifest
removed [] = []
removed (d ∷ ds) = let rest = removed ds in if not d.keep then d.manifest ∷ rest else rest

-- `Plan.Remove`
unfoldable pub remove : Plan → List Manifest
unfolding removed
remove p = removed p.decisions

unfoldable pub retained : List Decision → List Manifest
retained [] = []
retained (d ∷ ds) = let rest = retained ds in if d.keep then d.manifest ∷ rest else rest

-- `Plan.Kept`
unfoldable pub kept : Plan → List Manifest
unfolding retained
kept p = retained p.decisions

-- `n += m.EncryptedSize` on `int64`
abbrev pub add64 : Int64 → Int64 → Int64
add64 a b = (a + b) % 2 ^ 64

unfoldable pub add_sizes : Int64 → List Manifest → Int64
add_sizes n [] = n
add_sizes n (m ∷ ms) = add_sizes (add64 n m.encrypted_size) ms

-- `Plan.Bytes`
unfoldable pub total_bytes : Plan → Int64
unfolding remove add_sizes
total_bytes p = add_sizes 0 (remove p)

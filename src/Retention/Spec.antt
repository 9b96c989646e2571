-- ===== src/Retention/Spec.antt =====
-- What the retention policy means, by itself: which of the verified backups, newest first, each
-- kind of slot holds.
use backwyn.Prelude.{ℕ, zero, suc, ◌||◌, Bool, false, List, [], ◌∷◌, take, if◌then◌else◌}
use backwyn.Prelude.Int.{pos_part}
use backwyn.Prelude.Text.{Text, text_eq}
use backwyn.Time.Calendar.{format_day, format_month}
use backwyn.Manifest.{Manifest}
use backwyn.Retention.Policy.{Policy}
use backwyn.Retention.Slots.{iso_week_label}

unfoldable pub verified_only : List Manifest → List Manifest
verified_only [] = []
verified_only (m ∷ ms) =
    let rest = verified_only ms in if m.verification.verified then m ∷ rest else rest

-- The first of each of the first `k` runs of backups of one label, when the run of `last` goes on.
unfoldable pub run_heads : (Manifest → Text) → ℕ → Text → List Manifest → List Manifest
run_heads label zero last ms = []
run_heads label (suc k) last [] = []
run_heads label (suc k) last (m ∷ ms) =
    let same = run_heads label (suc k) last ms in
    let next = m ∷ run_heads label k (label m) ms in if text_eq (label m) last then same else next

unfoldable pub has_id : Text → List Manifest → Bool
has_id k [] = false
has_id k (m ∷ ms) = text_eq m.id k || has_id k ms

abbrev pub day_label : Manifest → Text
day_label m = format_day m.created_at

abbrev pub week_label : Manifest → Text
week_label m = iso_week_label m.created_at

abbrev pub month_label : Manifest → Text
month_label m = format_month m.created_at

-- Whether the policy holds the id `k`, of backups that are given newest first.
unfoldable pub in_policy : Policy → Text → List Manifest → Bool
unfolding verified_only has_id
in_policy p k ms =
    let v = verified_only ms in
    has_id k (take (pos_part p.keep_last) v)
    || (has_id k (run_heads day_label (pos_part p.keep_daily) [] v)
        || (has_id k (run_heads week_label (pos_part p.keep_weekly) [] v)
            || has_id k (run_heads month_label (pos_part p.keep_monthly) [] v)))

-- ===== src/Retention/Slots.antt =====
-- internal/retention/retention.go: the slots of the policy, and the reasons that fill them.
use backwyn.Prelude.{ℕ, ◌+◌, not, ◌&&◌, Option, none, some, List, [], ◌∷◌, ◌++◌, if◌then◌else◌}
use backwyn.Prelude.Int.{ℤ, pos, ltb_ℤ}
use backwyn.Prelude.Text.{Text, lit, text_eq, show_ℕ, show_ℤ, pad2}
use backwyn.Time.{Time}
use backwyn.Time.Calendar.{format_day, format_month, iso_week}
use backwyn.Manifest.{Manifest}
use backwyn.Retention.Policy.{Policy}

-- The reasons by backup id; a Go map that is only looked up.
abbrev pub Reasons : Type 0
Reasons = List (Text × Text)

unfoldable pub reason_for : Text → Reasons → Option Text
reason_for k [] = none
reason_for k ((j, r) ∷ rs) = if text_eq j k then some r else reason_for k rs

-- the closure `keep` of `Compute`
unfoldable pub keep : Manifest → Text → Reasons → Reasons
unfolding reason_for
keep m reason rs = elim (reason_for m.id rs) [ some _ ↦ rs | none ↦ (m.id, reason) ∷ rs ]

-- `isoWeek`
unfoldable pub iso_week_label : Time → Text
iso_week_label t = let (y, w) = iso_week t in show_ℕ y ++ (lit "-W" ++ pad2 w)

-- One kind of calendar slot: the last label that took one, and how many were taken.
pub record Slot : Type 0 where
  pub last_label : Text
  pub taken : ℕ

abbrev pub no_slot : Slot
no_slot = record { last_label = []; taken = 0 }

-- `if label := ...; label != last && n < limit { last, n = label, n+1; keep(m, kind+label) }`
unfoldable pub slot_step : ℤ → Text → Text → Manifest → Slot × Reasons → Slot × Reasons
unfolding keep
slot_step limit kind label m (s, rs) =
    if not (text_eq label s.last_label) && ltb_ℤ (pos s.taken) limit
    then (record { last_label = label; taken = s.taken + 1 }, keep m (kind ++ label) rs)
    else (s, rs)

-- The local variables of the loop over the policy slots.
pub record Slots : Type 0 where
  pub n_last : ℕ
  pub daily : Slot
  pub weekly : Slot
  pub monthly : Slot
  pub reasons : Reasons

-- `if nLast < p.KeepLast { nLast++; keep(...) }`
unfoldable pub last_step : Policy → Manifest → ℕ × Reasons → ℕ × Reasons
unfolding keep
last_step p m (n, rs) =
    if ltb_ℤ (pos n) p.keep_last
    then (
      n + 1,
      keep m (lit "one of the last " ++ (show_ℤ p.keep_last ++ lit " verified backups")) rs,
    )
    else (n, rs)

-- The body of the loop, for a verified manifest.
unfoldable pub fill_slots : Policy → Manifest → Slots → Slots
fill_slots p m s =
    let t = m.created_at in
    let (n, r1) = last_step p m (s.n_last, s.reasons) in
    let (d, r2) = slot_step p.keep_daily (lit "daily slot ") (format_day t) m (s.daily, r1) in
    let (w, r3) =
      slot_step p.keep_weekly (lit "weekly slot ") (iso_week_label t) m (s.weekly, r2) in
    let (mo, r4) =
      slot_step p.keep_monthly (lit "monthly slot ") (format_month t) m (s.monthly, r3) in
    record { n_last = n; daily = d; weekly = w; monthly = mo; reasons = r4 }

unfoldable pub slot_loop : Policy → List Manifest → Slots → Slots
slot_loop p [] s = s
slot_loop p (m ∷ ms) s =
    slot_loop p ms (if not m.verification.verified then s else fill_slots p m s)

abbrev pub first_slots : Reasons → Slots
first_slots rs = record {
  n_last = 0;
  daily = no_slot;
  weekly = no_slot;
  monthly = no_slot;
  reasons = rs;
}

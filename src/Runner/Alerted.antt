-- ===== src/Runner/Alerted.antt =====
-- internal/runner/runner.go: which cycles hand an event to the alerter.
use mathlib.Core.Path.{subst}
use mathlib.Core.List.{append_assoc}
use backwyn.Prelude.{
  ◌≡◌, ◌⊎◌, refl, ap, ◌∙◌, inl, inr, Bool, true, false, Option, none, some, List, [], ◌∷◌, ◌++◌,
  Result, ok, err, arith,
}
use backwyn.Prelude.Text.{Text, lit}
use backwyn.Time.{Time}
use backwyn.Alert.{Event, level_error}
use backwyn.Manifest.{Manifest}
use backwyn.Backup as Backup
use backwyn.Verify as Verify
use backwyn.Check as Check
use backwyn.Runner.Cycle.{
  World, Times, Deps, emit, after_verify, after_backup, backup_and_verify, after_report,
  after_check, cycle,
}

-- Behind `before` come events one of which is an error.
abbrev pub Raised : List Event → List Event → Type 0
Raised before after =
    (pre : List Event) × (event : Event) × (post : List Event) × (event.level ≡ level_error)
    × (after ≡ before ++ (pre ++ event ∷ post))

Raised-last :
    (before : List Event) (event : Event)
    → event.level ≡ level_error
    → Raised before (before ++ event ∷ [])
Raised-last before event h = ([], event, [], h, refl)

Raised-more : (before after more : List Event) → Raised before after → Raised before (after ++ more)
Raised-more before after more (pre, event, post, level, e) = (
  pre,
  event,
  post ++ more,
  level,
  ap (λ l. l ++ more) e
      ∙ (append_assoc before (pre ++ event ∷ post) more
          ∙ ap (λ l. before ++ l) (append_assoc pre (event ∷ post) more)),
)

module _ {S H : Type 0} (d : Deps S H) (times : Times) (now : Time) where
  -- A failure is raised; without one there is no event.
  abbrev Reported : List Event → Option Text × World S H → Type 0
  Reported before (none, w) = w.alerts ≡ before
  Reported before (some e, w) = Raised before w.alerts

  after_verify-Reported :
      (m : Manifest) (x : Result Verify.Failure Manifest × (S × H)) (w : World S H)
      → Reported w.alerts (after_verify d times now m x w)
  unfolding after_verify emit
  after_verify-Reported m (err f, (s, h)) w = Raised-last w.alerts _ refl
  after_verify-Reported m (ok m', (s, h)) w = refl

  after_backup-Reported :
      (x : Result Text Manifest × (S × H)) (w : World S H)
      → Reported w.alerts (after_backup d times now x w)
  unfolding after_backup emit
  after_backup-Reported (err e, (s, h)) w = Raised-last w.alerts _ refl
  after_backup-Reported (ok m, (s, h)) w = after_verify-Reported m _ _

  -- Behind the check: an error is raised, or it is that of the check.
  abbrev Known : List Event → Result Text Check.Report × S → Option Text × World S H → Type 0
  Known before x (none, w) = Unit
  Known before x (some e, w) =
      Raised before w.alerts ⊎ ((c : Text) × (x.0 ≡ err c) × (e ≡ lit "check: " ++ c))

  after_report-Raised :
      (healthy : Bool) (e : Text) (rep : Check.Report) (before : List Event) (w : World S H)
      → Raised before w.alerts
      → Raised before (after_report d times now healthy (some e) rep w).1.alerts
  unfolding after_report emit
  after_report-Raised false e rep before w r = Raised-more before w.alerts _ r
  after_report-Raised true e rep before w r = r

  after_report-Known :
      (healthy : Bool) (rep : Check.Report) (x : Result Text Check.Report × S) (w : World S H)
      → Known w.alerts x (after_report d times now healthy none rep w)
  unfolding after_report emit
  after_report-Known false rep x w = inl (Raised-last w.alerts _ refl)
  after_report-Known true rep x w = tt

  after_check-Raised :
      (e : Text) (before : List Event) (x : Result Text Check.Report × S) (w : World S H)
      → Raised before w.alerts
      → Raised before (after_check d times now (some e) x w).1.alerts
  unfolding after_check
  after_check-Raised e before (err c, s) w r = r
  after_check-Raised e before (ok rep, s) w r = after_report-Raised rep.healthy e rep before _ r

  after_check-Known :
      (x : Result Text Check.Report × S) (w : World S H)
      → Known w.alerts x (after_check d times now none x w)
  unfolding after_check
  after_check-Known (err c, s) w = inr (c, refl, refl)
  after_check-Known (ok rep, s) w = after_report-Known rep.healthy rep (ok rep, s) _

  Known-some :
      (before : List Event) (x : Result Text Check.Report × S) (z : Option Text × World S H)
      (e : Text)
      → Known before x z
      → z.0 ≡ some e
      → Raised before z.1.alerts ⊎ ((c : Text) × (x.0 ≡ err c) × (e ≡ lit "check: " ++ c))
  Known-some before x (none, w) e k h = absurd (ground arith)
  Known-some before x (some f, w) e k h = elim k [
    | inl r ↦ inl r
    | inr (c, failed, same) ↦ let this : e ≡ f = ground arith in inr (c, failed, this ∙ same)
  ]

  cycle-Known :
      (before : List Event) (y : Option Text × World S H)
      → Reported before y
      → let x = Check.run d.backend d.json d.sorter d.max_age now y.1.store in
        let z = after_check d times now y.0 x y.1 in
        (e : Text)
        → z.0 ≡ some e
        → Raised before z.1.alerts
          ⊎ ((y.0 ≡ none) × ((c : Text) × (x.0 ≡ err c) × (e ≡ lit "check: " ++ c)))
  cycle-Known before (some f, w) r e h = inl (after_check-Raised f before _ w r)
  cycle-Known before (none, w) r e h =
      let x = Check.run d.backend d.json d.sorter d.max_age now w.store in
      elim (Known-some w.alerts x (after_check d times now none x w) e (after_check-Known x w) h) [
        | inl raised ↦
            inl (subst (λ b. Raised b (after_check d times now none x w).1.alerts) r raised)
        | inr failed ↦ inr (refl, failed)
      ]

  -- A cycle that returns an error has handed the alerter an event of the level error, behind those that
  -- were there, unless its backup and its verification succeeded and the check could not be run: that
  -- error is returned alone.
  pub cycle-Raised :
      (w : World S H) (e : Text)
      → (cycle d times now w).0 ≡ some e
      → let w' = (backup_and_verify d times now w).1 in
        Raised w.alerts (cycle d times now w).1.alerts
        ⊎ (((backup_and_verify d times now w).0 ≡ none)
            × ((c : Text) × ((Check.run d.backend d.json d.sorter d.max_age now w'.store).0 ≡ err c)
                × (e ≡ lit "check: " ++ c)))
  unfolding cycle backup_and_verify
  cycle-Raised w e h =
      cycle-Known w.alerts (backup_and_verify d times now w)
        (after_backup-Reported
          (Backup.run d.backend d.json d.aead d.random d.sha256 d.urls d.host d.cfg now
            (w.store, w.machine))
          w)
        e h

-- ===== src/Retention/Sweep.antt =====
-- internal/retention/retention.go: `SweepOrphans`, for artifacts that have no manifest.
use backwyn.Prelude.{
  ℕ, ◌+◌, Bool, true, false, ◌||◌, Option, none, some, List, [], ◌∷◌, ◌++◌, Result, ok, err, map,
  if◌then◌else◌,
}
use backwyn.Prelude.Int.{ℤ, ltb_ℤ}
use backwyn.Prelude.Text.{Text, lit, text_eq, trim_prefix, trim_suffix}
use backwyn.Time.{Time, sub}
use backwyn.Time.Stamp.{parse_stamp}
use backwyn.Storage.{Backend}
use backwyn.Manifest.{Int64}
use backwyn.Retention.Policy.{add64}
use backwyn.Retention.Apply.{failure_error}

pub record Swept : Type 0 where
  pub removed : ℕ
  pub freed : Int64
  pub failures : List Text

-- `live[id]`; the map is a set that is built once and then asked.
unfoldable pub is_live : Text → List Text → Bool
is_live id [] = false
is_live id (j ∷ live) = text_eq j id || is_live id live

-- The id in a manifest's key, and in an artifact's.
unfoldable pub manifest_id : Text → Text
unfolding trim_prefix trim_suffix
manifest_id k = trim_suffix (trim_prefix k (lit "manifests/")) (lit ".manifest.json")

unfoldable pub artifact_id : Text → Text
unfolding trim_prefix trim_suffix
artifact_id k = trim_suffix (trim_prefix k (lit "artifacts/")) (lit ".dump.enc")

-- The tests of the loop's body: whether the artifact under the key `k` is deleted.
unfoldable pub is_orphan : List Text → ℤ → Time → Text → Bool
unfolding is_live
is_orphan live min_age now k =
    if is_live (artifact_id k) live then false else (elim (parse_stamp (artifact_id k)) [
      | none ↦ false
      | some created ↦ if ltb_ℤ (sub now created) min_age then false else true
    ])

abbrev pub nothing_swept : Swept
nothing_swept = record { removed = 0; freed = 0; failures = [] }

module _ {S : Type 0} (b : Backend S) where
  abbrev size_or_zero : Result Text ℕ → ℕ
  size_or_zero (ok n) = n
  size_or_zero (err e) = 0

  unfoldable pub sweep_one : List Text → ℤ → Time → Text → Swept → S → Swept × S
  unfolding is_orphan
  sweep_one live min_age now k w s =
      let (size, s1) = b.stat k s in
      let (r, s2) = b.delete k s1 in
      if is_orphan live min_age now k
      then (elim r [
        | err e ↦ (record w { failures = w.failures ++ (k ++ (lit ": " ++ e)) ∷ [] }, s2)
        | ok _ ↦
            (record w { removed = w.removed + 1; freed = add64 w.freed (size_or_zero size) }, s2)
      ])
      else (w, s)

  unfoldable pub sweep_loop : List Text → ℤ → Time → List Text → Swept → S → Swept × S
  sweep_loop live min_age now [] w s = (w, s)
  sweep_loop live min_age now (k ∷ ks) w s =
      let (w', s') = sweep_one live min_age now k w s in sweep_loop live min_age now ks w' s'

  -- `SweepOrphans`
  unfoldable pub sweep_orphans : ℤ → Time → S → (ℕ × Int64 × Option Text) × S
  unfolding manifest_id
  sweep_orphans min_age now s =
      let (listed, s1) = b.list (lit "manifests/") s in
      elim listed [
        | err e ↦ ((0, 0, some e), s1)
        | ok manifest_keys ↦
            let live = map manifest_id manifest_keys in
            let (artifacts, s2) = b.list (lit "artifacts/") s1 in
            elim artifacts [
              | err e ↦ ((0, 0, some e), s2)
              | ok ks ↦
                  let (w, s3) = sweep_loop live min_age now ks nothing_swept s2 in
                  ((w.removed, w.freed, failure_error (lit "sweep") w.failures), s3)
            ]
      ]

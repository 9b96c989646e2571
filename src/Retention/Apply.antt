-- ===== src/Retention/Apply.antt =====
-- internal/retention/retention.go: `Apply`, which deletes manifests before artifacts.
use backwyn.Prelude.{Option, none, some, List, [], ◌∷◌, ◌++◌, ok, err, length}
use backwyn.Prelude.Text.{Text, lit, join, show_ℕ}
use backwyn.Storage.{Backend}
use backwyn.Manifest.{Manifest, Int64, manifest_key}
use backwyn.Retention.Policy.{Plan, remove, add64}

-- The local variables of the loop: the bytes that were freed, and what failed.
pub record Freed : Type 0 where
  pub bytes : Int64
  pub failures : List Text

-- The error of a loop that counts its failures.
unfoldable pub failure_error : Text → List Text → Option Text
failure_error what [] = none
failure_error what (e ∷ es) = some (
    what
    ++ (lit " completed with "
        ++ (show_ℕ (length (e ∷ es)) ++ (lit " failure(s): " ++ join (e ∷ es) (lit "; ")))))

module _ {S : Type 0} (b : Backend S) where
  -- The body of the loop.
  unfoldable pub apply_one : Manifest → Freed → S → Freed × S
  apply_one m f s =
      let (r, s1) = b.delete (manifest_key m.id) s in
      let (r', s2) = b.delete m.artifact_key s1 in
      elim r [
        | err e ↦
            (record f { failures = f.failures ++ (m.id ++ (lit " manifest: " ++ e)) ∷ [] }, s1)
        | ok _ ↦ elim r' [
          | err e ↦ (
            record f {
              failures =
                  f.failures
                  ++ (m.id ++ (lit " artifact: " ++ (e ++ lit " (orphaned, sweep will reclaim)")))
                    ∷ [];
            },
            s2,
          )
          | ok _ ↦ (record f { bytes = add64 f.bytes m.encrypted_size }, s2)
        ]
      ]

  unfoldable pub apply_loop : List Manifest → Freed → S → Freed × S
  apply_loop [] f s = (f, s)
  apply_loop (m ∷ ms) f s = let (f', s') = apply_one m f s in apply_loop ms f' s'

  -- `Apply`: the bytes freed, and the error.
  unfoldable pub apply : Plan → S → (Int64 × Option Text) × S
  unfolding failure_error
  apply plan s =
      let (f, s') = apply_loop (remove plan) (record { bytes = 0; failures = [] }) s in
      ((f.bytes, failure_error (lit "prune") f.failures), s')

-- ===== src/Artifact/Load.antt =====
-- internal/artifact/artifact.go: `Load`, `LoadAll` and `Save`.
use backwyn.Prelude.{none, List, [], ◌∷◌, ◌++◌, Result, ok, err}
use backwyn.Prelude.Text.{Text, lit}
use backwyn.Storage.{Backend}
use backwyn.Manifest.{Manifest, Json, manifest_key, decode}

module _ {S : Type 0} (b : Backend S) (j : Json) where
  -- `Load`
  unfoldable pub load : Text → S → Result Text Manifest × S
  load id s =
      let (r, s') = b.get (manifest_key id) s in
      elim r [
        | err e ↦ (err (lit "open manifest for " ++ (id ++ (lit ": " ++ e))), s')
        | ok rc ↦ (decode j rc, s')
      ]

  -- The body of the loop of `LoadAll`.
  unfoldable pub load_key : Text → S → Result Text Manifest × S
  load_key k s =
      let (r, s') = b.get k s in
      elim r [
        | err e ↦ (err (lit "open " ++ (k ++ (lit ": " ++ e))), s')
        | ok rc ↦ (
          elim (decode j rc) [
            | err e ↦ err (lit "decode " ++ (k ++ (lit ": " ++ e)))
            | ok m ↦ ok m
          ],
          s',
        )
      ]

  unfoldable pub load_keys : List Text → S → Result Text (List Manifest) × S
  load_keys [] s = (ok [], s)
  load_keys (k ∷ ks) s =
      let (r, s') = load_key k s in
      let (rest, s'') = load_keys ks s' in
      elim r [
        | err e ↦ (err e, s')
        | ok m ↦ elim rest [ err e ↦ (err e, s'') | ok ms ↦ (ok (m ∷ ms), s'') ]
      ]

  -- `LoadAll`
  unfoldable pub load_all : S → Result Text (List Manifest) × S
  load_all s =
      let (r, s') = b.list (lit "manifests/") s in
      elim r [ err e ↦ (err e, s') | ok ks ↦ load_keys ks s' ]

  -- `Save`. A failing `Encode` would reach `Put` as a fault of its reader; it does not fail on a
  -- manifest.
  unfoldable pub save : Manifest → S → Result Text (Unit {0}) × S
  save m s = b.put (manifest_key m.id) (record { bytes = j.encode m; fault = none }) s

-- ===== src/Retention/Complete.antt =====
-- Every manifest in the store stands for an artifact: what `Apply` and `SweepOrphans` do to that.
use mathlib.Core.Path.{subst}
use backwyn.Prelude.{
  ◌⊎◌, ok, arith, ◌≡◌, ◌≢◌, sym, ◌∙◌, Option, none, List, [], ◌∷◌, All, inl, inr, Bool-cases,
  Result-cases,
}
use backwyn.Prelude.Text.{Text, text_eq, text_eq_iff}
use backwyn.Storage.{Backend, IsStore}
use backwyn.Manifest.{Manifest, manifest_key, artifact_key_of}
use backwyn.Manifest.Keys.{artifact_key_of-injective, manifest_key-ne-artifact_key_of}
use backwyn.Retention.Policy.{Plan, remove}
use backwyn.Retention.Apply.{Freed, apply_one, apply_loop, apply}

-- Where there is a manifest there is its artifact.
abbrev pub IsComplete : (Text → Option Text) → Type 0
IsComplete view = (id : Text) → view (artifact_key_of id) ≡ none → view (manifest_key id) ≡ none

-- The artifact's key is the one that `backup.Run` writes.
abbrev pub IsKeyed : Manifest → Type 0
IsKeyed m = m.artifact_key ≡ artifact_key_of m.id

module _ {S : Type 0} (b : Backend S) (view : S → Text → Option Text) (st : IsStore b view) where
  -- A removal, whether it succeeds or not, leaves what is not there not there.
  pub delete_none : (k : Text) (s : S) (j : Text) → view s j ≡ none → view (b.delete k s).1 j ≡ none
  delete_none k s j h = elim (Bool-cases (text_eq k j)) [
    | inr other ↦ st.delete_other k s j (λ e. cc (other, (text_eq_iff k j).1 e)) ∙ h
    | inl same ↦
        let e : k ≡ j = (text_eq_iff k j).0 same in
        elim (Result-cases (b.delete k s).0) [
          | inl (_, done) ↦ rw (← e) (st.delete_ok k s done)
          | inr (x, failed) ↦ elim (st.delete_err k s x failed) [
            | inl kept ↦ rw (← e) (kept ∙ rw e h)
            | inr gone ↦ rw (← e) gone
          ]
        ]
  ]

  -- Deleting a manifest keeps the store complete.
  delete_manifest-IsComplete :
      (id : Text) (s : S) → IsComplete (view s) → IsComplete (view (b.delete (manifest_key id) s).1)
  delete_manifest-IsComplete id s h j a = delete_none (manifest_key id) s (manifest_key j) (
      h j (
        sym (
          st.delete_other (manifest_key id) s (artifact_key_of j)
            (manifest_key-ne-artifact_key_of id j))
        ∙ a))

  -- So does deleting the artifact of a manifest that is gone.
  pub delete_artifact-IsComplete :
      (id : Text) (s : S)
      → view s (manifest_key id) ≡ none
      → IsComplete (view s)
      → IsComplete (view (b.delete (artifact_key_of id) s).1)
  delete_artifact-IsComplete id s gone h j a = elim (Bool-cases (text_eq id j)) [
    | inl same ↦
        delete_none (artifact_key_of id) s (manifest_key j) (rw ((text_eq_iff id j).0 same) at gone)
    | inr other ↦
        let apart : artifact_key_of id ≢ artifact_key_of j =
          λ e. cc (other, (text_eq_iff id j).1 (artifact_key_of-injective id j e)) in
        delete_none (artifact_key_of id) s (manifest_key j)
          (h j (sym (st.delete_other (artifact_key_of id) s (artifact_key_of j) apart) ∙ a))
  ]

  -- One round stops at a manifest that it could not delete, or goes on to the artifact.
  pub apply_one-cases :
      (m : Manifest) (f : Freed) (s : S)
      → let s1 = (b.delete (manifest_key m.id) s).1 in
        ((apply_one b m f s).1 ≡ s1)
        ⊎ (((b.delete (manifest_key m.id) s).0 ≡ ok tt)
            × ((apply_one b m f s).1 ≡ (b.delete m.artifact_key s1).1))
  unfolding apply_one
  apply_one-cases m f s = elim (Result-cases (b.delete (manifest_key m.id) s).0) [
    | inr (e, failed) ↦ inl (ground arith)
    | inl (_, done) ↦
        elim (Result-cases (b.delete m.artifact_key (b.delete (manifest_key m.id) s).1).0) [
          | inl (_, done') ↦ inr (done, ground arith)
          | inr (e, failed) ↦ inr (done, ground arith)
        ]
  ]

  apply_one-IsComplete :
      (m : Manifest) (f : Freed) (s : S)
      → IsKeyed m
      → IsComplete (view s)
      → IsComplete (view (apply_one b m f s).1)
  apply_one-IsComplete m f s keyed h =
      let s1 = (b.delete (manifest_key m.id) s).1 in
      let h1 : IsComplete (view s1) = delete_manifest-IsComplete m.id s h in
      elim (apply_one-cases m f s) [
        | inl e ↦ subst (λ x. IsComplete (view x)) (sym e) h1
        | inr (done, e) ↦
            subst (λ x. IsComplete (view x)) (sym e)
              (subst (λ k. IsComplete (view (b.delete k s1).1)) (sym keyed)
                (delete_artifact-IsComplete m.id s1 (st.delete_ok (manifest_key m.id) s done) h1))
      ]

  apply_loop-IsComplete :
      (ms : List Manifest) (f : Freed) (s : S)
      → All IsKeyed ms
      → IsComplete (view s)
      → IsComplete (view (apply_loop b ms f s).1)
  unfolding apply_loop
  apply_loop-IsComplete [] f s keyed h = h
  apply_loop-IsComplete (m ∷ ms) f s keyed h =
      let (f', s') = apply_one b m f s in
      apply_loop-IsComplete ms f' s' keyed.1 (apply_one-IsComplete m f s keyed.0 h)

  -- If the artifact's key in every manifest that the plan removes is the one that `backup.Run` writes for
  -- the manifest's id (`Apply` does not check it), then after `Apply`, whatever calls of the store fail and
  -- from wherever on, no manifest is left without its artifact, if there was none before.
  pub apply-IsComplete :
      (plan : Plan) (s : S)
      → All IsKeyed (remove plan)
      → IsComplete (view s)
      → IsComplete (view (apply b plan s).1)
  unfolding apply
  apply-IsComplete plan s keyed h = apply_loop-IsComplete (remove plan) _ s keyed h

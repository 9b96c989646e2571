-- ===== src/Retention/Orphans.antt =====
-- One round of `SweepOrphans`, and the loop of rounds, over the artifacts that were listed.
use mathlib.Core.Path.{subst}
use mathlib.Core.List.{Mem, mem-cons, mem-cons_self, mem-cons_of_mem, not-mem-nil}
use mathlib.Core.Logic.Or
use mathlib.Core.Bool.{Bool-set}
use backwyn.Prelude.{
  ◌⊎◌, ◌≡◌, ◌≢◌, refl, sym, ap, ◌∙◌, arith, Bool-cases, Result-cases, Option, none, List, [], ◌∷◌,
  inl, inr, true, false,
}
use backwyn.Prelude.Int.{ℤ}
use backwyn.Prelude.Text.{Text, text_eq, text_eq_iff}
use backwyn.Time.{Time}
use backwyn.Storage.{Backend, IsStore}
use backwyn.Manifest.{manifest_key, artifact_key_of}
use backwyn.Manifest.Keys.{id_of_manifest-manifest_key, id_of_artifact-artifact_key_of}
use backwyn.Retention.Sweep.{
  Swept, is_live, manifest_id, artifact_id, is_orphan, sweep_one, sweep_loop,
}
use backwyn.Retention.Complete.{IsComplete, delete_none}

pub is_live_of_mem : (id : Text) (live : List Text) → Mem id live → is_live id live ≡ true
unfolding is_live
is_live_of_mem id [] h = absurd (not-mem-nil h)
is_live_of_mem id (j ∷ live) h =
    Or.elim (Bool-set _ _) (mem-cons.0 h) (λ e. ground (arith, (text_eq_iff j id).1 (sym e)))
      (λ i. ground (arith, is_live_of_mem id live i))

pub manifest_id-manifest_key : (id : Text) → manifest_id (manifest_key id) ≡ id
unfolding manifest_id
manifest_id-manifest_key id = id_of_manifest-manifest_key id

artifact_id-artifact_key_of : (id : Text) → artifact_id (artifact_key_of id) ≡ id
unfolding artifact_id
artifact_id-artifact_key_of id = id_of_artifact-artifact_key_of id

orphan_not_live :
    (live : List Text) (min_age : ℤ) (now : Time) (k : Text)
    → is_orphan live min_age now k ≡ true
    → is_live (artifact_id k) live ≡ false
unfolding is_orphan
orphan_not_live live min_age now k h = ground arith

module _ {S : Type 0} (b : Backend S) (view : S → Text → Option Text) (st : IsStore b view)
    (live : List Text) (min_age : ℤ) (now : Time) where
  -- One round deletes an orphan, or leaves the store as it is.
  sweep_one-cases :
      (k : Text) (w : Swept) (s : S)
      → ((is_orphan live min_age now k ≡ true)
          × ((sweep_one b live min_age now k w s).1 ≡ (b.delete k (b.stat k s).1).1))
        ⊎ ((is_orphan live min_age now k ≡ false) × ((sweep_one b live min_age now k w s).1 ≡ s))
  unfolding sweep_one
  sweep_one-cases k w s = elim (Bool-cases (is_orphan live min_age now k)) [
    | inl orphan ↦ elim (Result-cases (b.delete k (b.stat k s).1).0) [
      | inl (_, done) ↦ inl (orphan, ground arith)
      | inr (e, failed) ↦ inl (orphan, ground arith)
    ]
    | inr spared ↦ inr (spared, ground arith)
  ]

  -- A key that is no orphan keeps its object.
  sweep_one_other :
      (k : Text) (w : Swept) (s : S) (j : Text)
      → (is_orphan live min_age now k ≡ true → k ≢ j)
      → view (sweep_one b live min_age now k w s).1 j ≡ view s j
  sweep_one_other k w s j apart = elim (sweep_one-cases k w s) [
    | inl (orphan, e) ↦
        ap (λ x. view x j) e
        ∙ st.delete_other k (b.stat k s).1 j (apart orphan)
        ∙ st.stat_view k s j
    | inr (_, e) ↦ ap (λ x. view x j) e
  ]

  pub sweep_loop_other :
      (ks : List Text) (w : Swept) (s : S) (j : Text)
      → ((k : Text) → Mem k ks → is_orphan live min_age now k ≡ true → k ≢ j)
      → view (sweep_loop b live min_age now ks w s).1 j ≡ view s j
  unfolding sweep_loop
  sweep_loop_other [] w s j apart = refl
  sweep_loop_other (k ∷ ks) w s j apart =
      let (w', s') = sweep_one b live min_age now k w s in
      sweep_loop_other ks w' s' j (λ i m. apart i (mem-cons_of_mem k m))
      ∙ sweep_one_other k w s j (apart k mem-cons_self)

  -- No id outside `live` has a manifest, and every manifest has its artifact.
  abbrev pub IsSwept : S → Type 0
  IsSwept s =
      IsComplete (view s)
      × ((id : Text) → is_live id live ≡ false → view s (manifest_key id) ≡ none)

  sweep_delete-IsSwept :
      (k : Text) (s : S)
      → is_orphan live min_age now k ≡ true
      → IsSwept s
      → IsSwept (b.delete k s).1
  sweep_delete-IsSwept k s orphan (complete, dead) = (
    λ j a. elim (Bool-cases (text_eq k (artifact_key_of j))) [
      | inl same ↦
          let e : artifact_id k ≡ j =
            ap artifact_id ((text_eq_iff k (artifact_key_of j)).0 same)
            ∙ artifact_id-artifact_key_of j in
          delete_none b view st k s (manifest_key j)
            (dead j (ap (λ i. is_live i live) (sym e) ∙ orphan_not_live live min_age now k orphan))
      | inr other ↦ delete_none b view st k s (manifest_key j) (
          complete j (
            sym (
              st.delete_other k s (artifact_key_of j)
                (λ e. cc (other, (text_eq_iff k (artifact_key_of j)).1 e)))
            ∙ a))
    ],
    λ id d. delete_none b view st k s (manifest_key id) (dead id d),
  )

  stat-IsSwept : (k : Text) (s : S) → IsSwept s → IsSwept (b.stat k s).1
  stat-IsSwept k s (complete, dead) = (
    λ j a.
        st.stat_view k s (manifest_key j)
        ∙ complete j (sym (st.stat_view k s (artifact_key_of j)) ∙ a),
    λ id d. st.stat_view k s (manifest_key id) ∙ dead id d,
  )

  pub sweep_loop-IsSwept :
      (ks : List Text) (w : Swept) (s : S)
      → IsSwept s
      → IsSwept (sweep_loop b live min_age now ks w s).1
  unfolding sweep_loop
  sweep_loop-IsSwept [] w s h = h
  sweep_loop-IsSwept (k ∷ ks) w s h =
      let (w', s') = sweep_one b live min_age now k w s in
      sweep_loop-IsSwept ks w' s' (elim (sweep_one-cases k w s) [
        | inl (orphan, e) ↦
            subst IsSwept (sym e)
              (sweep_delete-IsSwept k (b.stat k s).1 orphan (stat-IsSwept k s h))
        | inr (_, e) ↦ subst IsSwept (sym e) h
      ])

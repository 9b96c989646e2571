-- ===== src/Retention/Spared.antt =====
-- What `SweepOrphans` leaves alone.
use mathlib.Core.Path.{subst}
use mathlib.Core.List.{Mem, mem-map_of_mem}
use backwyn.Prelude.{
  Option-cases, ◌⊎◌, ◌≡◌, ◌≢◌, sym, ap, ◌∙◌, ok, arith, Result-cases, Option, none, some, List, inl,
  inr, true, false, map,
}
use backwyn.Prelude.Int.{ℤ, ltb_ℤ}
use backwyn.Prelude.Text.{Text, lit, has_prefix}
use backwyn.Time.{Time, sub}
use backwyn.Time.Stamp.{parse_stamp}
use backwyn.Storage.{Backend, IsStore}
use backwyn.Manifest.{manifest_key, artifact_key_of}
use backwyn.Manifest.Keys.{has_prefix-manifest_key}
use backwyn.Retention.Sweep.{
  is_live, manifest_id, artifact_id, is_orphan, sweep_loop, sweep_orphans, nothing_swept,
}
use backwyn.Retention.Complete.{IsComplete}
use backwyn.Retention.Orphans.{
  is_live_of_mem, manifest_id-manifest_key, sweep_loop_other, sweep_loop-IsSwept,
}

-- Why `SweepOrphans` must leave the artifact under a key.
abbrev pub IsSpared : (Text → Option Text) → ℤ → Time → Text → Type 0
IsSpared view min_age now k =
    (has_prefix k (lit "artifacts/") ≡ false)
    ⊎ ((view (manifest_key (artifact_id k)) ≢ none)
        ⊎ ((parse_stamp (artifact_id k) ≡ none)
            ⊎ ((created : Time) × (parse_stamp (artifact_id k) ≡ some created)
                × (ltb_ℤ (sub now created) min_age ≡ true))))

module _ {S : Type 0} (b : Backend S) (view : S → Text → Option Text) (st : IsStore b view)
    (min_age : ℤ) (now : Time) (s : S) where
  -- An artifact with a manifest is live, for the list of manifests that was read.
  live_of_manifest :
      (ks : List Text) (id : Text)
      → (b.list (lit "manifests/") s).0 ≡ ok ks
      → view s (manifest_key id) ≢ none
      → is_live id (map manifest_id ks) ≡ true
  live_of_manifest ks id listed there = is_live_of_mem id (map manifest_id ks) (
      subst (λ x. Mem x (map manifest_id ks)) (manifest_id-manifest_key id)
        (mem-map_of_mem manifest_id (
          (st.list_ok (lit "manifests/") s ks listed (manifest_key id)).1
            (has_prefix-manifest_key id, there))))

  no_manifest :
      (ks : List Text) (id : Text)
      → (b.list (lit "manifests/") s).0 ≡ ok ks
      → is_live id (map manifest_id ks) ≡ false
      → view s (manifest_key id) ≡ none
  no_manifest ks id listed dead = elim (Option-cases (view s (manifest_key id))) [
    | inl gone ↦ gone
    | inr (x, there) ↦ absurd (cc (dead, live_of_manifest ks id listed (λ g. cc (there, g))))
  ]

  abbrev after_list : Text → S → S
  after_list p t = (b.list p t).1

  -- The sweep gives up when it cannot list the keys, or goes through the artifacts.
  sweep_orphans-cases :
      let t = after_list (lit "artifacts/") (after_list (lit "manifests/") s) in
      let end = (sweep_orphans b min_age now s).1 in
      ((end ≡ after_list (lit "manifests/") s) ⊎ (end ≡ t))
      ⊎ ((ms ks : List Text) × ((b.list (lit "manifests/") s).0 ≡ ok ms)
          × ((b.list (lit "artifacts/") (after_list (lit "manifests/") s)).0 ≡ ok ks)
          × (end ≡ (sweep_loop b (map manifest_id ms) min_age now ks nothing_swept t).1))
  unfolding sweep_orphans
  sweep_orphans-cases = elim (Result-cases (b.list (lit "manifests/") s).0) [
    | inr (e, failed) ↦ inl (inl (ground arith))
    | inl (ms, listed) ↦
        elim (Result-cases (b.list (lit "artifacts/") (b.list (lit "manifests/") s).1).0) [
          | inr (e, failed) ↦ inl (inr (ground arith))
          | inl (ks, listed') ↦ inr (ms, ks, listed, listed', ground arith)
        ]
  ]

  listed_twice :
      (j : Text)
      → view (after_list (lit "artifacts/") (after_list (lit "manifests/") s)) j ≡ view s j
  listed_twice j =
      st.list_view (lit "artifacts/") (after_list (lit "manifests/") s) j
      ∙ st.list_view (lit "manifests/") s j

  same_view-IsComplete :
      (t : S) → ((j : Text) → view t j ≡ view s j) → IsComplete (view s) → IsComplete (view t)
  same_view-IsComplete t same h j a =
      same (manifest_key j) ∙ h j (sym (same (artifact_key_of j)) ∙ a)

  -- A listed orphan has none of the reasons to be spared.
  orphan_not-IsSpared :
      (ms ks : List Text) (k : Text)
      → (b.list (lit "manifests/") s).0 ≡ ok ms
      → (b.list (lit "artifacts/") (after_list (lit "manifests/") s)).0 ≡ ok ks
      → Mem k ks
      → is_orphan (map manifest_id ms) min_age now k ≡ true
      → ¬ IsSpared (view s) min_age now k
  unfolding is_orphan
  orphan_not-IsSpared ms ks k listed listed' k_in orphan (inl outside) =
      cc (outside, ((st.list_ok (lit "artifacts/") _ ks listed' k).0 k_in).0)
  orphan_not-IsSpared ms ks k listed listed' k_in orphan (inr (inl manifest)) =
      ground (arith, live_of_manifest ms (artifact_id k) listed manifest)
  orphan_not-IsSpared ms ks k listed listed' k_in orphan (inr (inr (inl foreign))) = ground arith
  orphan_not-IsSpared ms ks k listed listed' k_in orphan
        (inr (inr (inr (created, parsed, young)))) =
      ground arith

  -- Whatever calls of the store fail: a sweep leaves no manifest without its artifact, if there
  -- was none before.
  pub sweep_orphans-IsComplete :
      IsComplete (view s) → IsComplete (view (sweep_orphans b min_age now s).1)
  sweep_orphans-IsComplete h = elim sweep_orphans-cases [
    | inl (inl e) ↦
        same_view-IsComplete _ (λ j. ap (λ x. view x j) e ∙ st.list_view (lit "manifests/") s j) h
    | inl (inr e) ↦ same_view-IsComplete _ (λ j. ap (λ x. view x j) e ∙ listed_twice j) h
    | inr (ms, ks, listed, listed', e) ↦
        let live = map manifest_id ms in
        let t = after_list (lit "artifacts/") (after_list (lit "manifests/") s) in
        subst (λ x. IsComplete (view x)) (sym e)
          (sweep_loop-IsSwept b view st live min_age now ks nothing_swept t (
            same_view-IsComplete t listed_twice h,
            λ id d. listed_twice (manifest_key id) ∙ no_manifest ms id listed d,
          )).0
  ]

  -- A sweep does not touch a key outside "artifacts/", an artifact with a manifest, a key that is
  -- no time stamp, or an artifact that is younger than the least age.
  pub sweep_orphans_spares :
      (j : Text)
      → IsSpared (view s) min_age now j
      → view (sweep_orphans b min_age now s).1 j ≡ view s j
  sweep_orphans_spares j spared = elim sweep_orphans-cases [
    | inl (inl e) ↦ ap (λ x. view x j) e ∙ st.list_view (lit "manifests/") s j
    | inl (inr e) ↦ ap (λ x. view x j) e ∙ listed_twice j
    | inr (ms, ks, listed, listed', e) ↦
        ap (λ x. view x j) e
        ∙ sweep_loop_other b view st (map manifest_id ms) min_age now ks nothing_swept _ j
            (λ k k_in orphan same.
              orphan_not-IsSpared ms ks k listed listed' k_in orphan
                (subst (IsSpared (view s) min_age now) (sym same) spared))
        ∙ listed_twice j
  ]

-- ===== src/Retention/Deleted.antt =====
-- What `Apply` deletes and what it leaves, and the bytes that it reports.
use backwyn.Prelude.{
  ℕ, ◌+◌, ◌%◌, ◌^◌, ◌≡◌, ◌≢◌, refl, ap, ◌∙◌, ok, arith, Result-cases, Option, none, List, [], ◌∷◌,
  ◌++◌, All, inl, inr,
}
use backwyn.Prelude.Text.{Text, lit}
use backwyn.Storage.{Backend, IsStore}
use backwyn.Manifest.{Manifest, Int64, manifest_key}
use backwyn.Retention.Policy.{Plan, remove, add64, add_sizes, total_bytes}
use backwyn.Retention.Apply.{Freed, apply_one, apply_loop, apply, failure_error}
use backwyn.Retention.Complete.{delete_none, apply_one-cases}

-- The sizes of the artifacts, as numbers without a bound.
abbrev pub sum_sizes : List Manifest → ℕ
sum_sizes [] = 0
sum_sizes (m ∷ ms) = m.encrypted_size + sum_sizes ms

add_sizes_lem :
    (n : Int64) (ms : List Manifest) → add_sizes (n % 2 ^ 64) ms ≡ (n + sum_sizes ms) % 2 ^ 64
unfolding add_sizes
add_sizes_lem n [] = ap (λ (t : ℕ). t % 2 ^ 64) (omega arith)
add_sizes_lem n (m ∷ ms) =
    ap (λ (t : ℕ). add_sizes t ms) (omega arith)
    ∙ add_sizes_lem (n + m.encrypted_size) ms
    ∙ ap (λ (t : ℕ). t % 2 ^ 64) (omega arith)

-- The bytes that a plan reports are the sum of the sizes of what it removes, modulo 2 ^ 64.
total_bytes_lem : (plan : Plan) → total_bytes plan ≡ sum_sizes (remove plan) % 2 ^ 64
unfolding total_bytes
total_bytes_lem plan = add_sizes_lem 0 (remove plan) ∙ ap (λ (t : ℕ). t % 2 ^ 64) (omega arith)

append_one-ne-nil : (xs : List Text) (x : Text) → xs ++ x ∷ [] ≢ []
append_one-ne-nil [] x e = cc
append_one-ne-nil (y ∷ xs) x e = cc

no_failure : (es : List Text) → failure_error (lit "prune") es ≡ none → es ≡ []
unfolding failure_error
no_failure [] h = refl
no_failure (e ∷ es) h = cc

module _ {S : Type 0} (b : Backend S) (view : S → Text → Option Text) (st : IsStore b view) where
  -- A round that adds no failure has deleted both keys.
  apply_one_clean :
      (m : Manifest) (f : Freed) (s : S)
      → (apply_one b m f s).0.failures ≡ []
      → let s1 = (b.delete (manifest_key m.id) s).1 in
        (f.failures ≡ [])
        × ((b.delete (manifest_key m.id) s).0 ≡ ok tt)
        × ((b.delete m.artifact_key s1).0 ≡ ok tt)
        × ((apply_one b m f s).1 ≡ (b.delete m.artifact_key s1).1)
        × ((apply_one b m f s).0.bytes ≡ add64 f.bytes m.encrypted_size)
  unfolding apply_one
  apply_one_clean m f s clean = elim (Result-cases (b.delete (manifest_key m.id) s).0) [
    | inr (e, failed) ↦
        absurd (append_one-ne-nil f.failures (m.id ++ (lit " manifest: " ++ e)) (ground arith))
    | inl (_, done) ↦
        elim (Result-cases (b.delete m.artifact_key (b.delete (manifest_key m.id) s).1).0) [
          | inl (_, done') ↦ (ground arith, done, done', ground arith, ground arith)
          | inr (e, failed) ↦ absurd (
              append_one-ne-nil f.failures
                (m.id ++ (lit " artifact: " ++ (e ++ lit " (orphaned, sweep will reclaim)")))
                (ground arith))
        ]
  ]

  apply_loop-none :
      (ms : List Manifest) (f : Freed) (s : S) (j : Text)
      → view s j ≡ none
      → view (apply_loop b ms f s).1 j ≡ none
  unfolding apply_loop
  apply_loop-none [] f s j h = h
  apply_loop-none (m ∷ ms) f s j h =
      let (f', s') = apply_one b m f s in
      let h1 : view (b.delete (manifest_key m.id) s).1 j ≡ none =
        delete_none b view st (manifest_key m.id) s j h in
      apply_loop-none ms f' s' j (elim (apply_one-cases b view st m f s) [
        | inl e ↦ ap (λ x. view x j) e ∙ h1
        | inr (_, e) ↦ ap (λ x. view x j) e ∙ delete_none b view st m.artifact_key _ j h1
      ])

  -- A loop without failures has deleted everything, and added up the sizes.
  apply_loop_clean :
      (ms : List Manifest) (f : Freed) (s : S)
      → let (f', s') = apply_loop b ms f s in
        f'.failures ≡ []
        → (f.failures ≡ [])
          × (f'.bytes ≡ add_sizes f.bytes ms)
          × All (λ m. (view s' (manifest_key m.id) ≡ none) × (view s' m.artifact_key ≡ none)) ms
  unfolding apply_loop add_sizes
  apply_loop_clean [] f s clean = (clean, refl, tt)
  apply_loop_clean (m ∷ ms) f s clean =
      let (f', s') = apply_one b m f s in
      let s1 = (b.delete (manifest_key m.id) s).1 in
      let (clean', bytes, rest) = apply_loop_clean ms f' s' clean in
      let (start, done, done', e, added) = apply_one_clean m f s clean' in
      let gone : view s1 (manifest_key m.id) ≡ none = st.delete_ok (manifest_key m.id) s done in
      (
        start,
        bytes ∙ ap (λ (t : ℕ). add_sizes t ms) added,
        (
          (
            apply_loop-none ms f' s' (manifest_key m.id) (
                ap (λ x. view x (manifest_key m.id)) e
                ∙ delete_none b view st m.artifact_key s1 _ gone),
            apply_loop-none ms f' s' m.artifact_key
                (ap (λ x. view x m.artifact_key) e ∙ st.delete_ok m.artifact_key s1 done'),
          ),
          rest,
        ),
      )

  -- If `Apply` reports no error, the manifest and the artifact of every backup that the plan
  -- removes are gone, and the bytes that it reports are the sum of their sizes, modulo 2 ^ 64.
  pub apply_deletes :
      (plan : Plan) (s : S)
      → (apply b plan s).0.1 ≡ none
      → ((apply b plan s).0.0 ≡ sum_sizes (remove plan) % 2 ^ 64)
        × All
            (λ m.
              (view (apply b plan s).1 (manifest_key m.id) ≡ none)
              × (view (apply b plan s).1 m.artifact_key ≡ none))
            (remove plan)
  unfolding apply total_bytes
  apply_deletes plan s clean =
      let (f', s') = apply_loop b (remove plan) (record { bytes = 0; failures = [] }) s in
      let (_, bytes, gone) =
        apply_loop_clean (remove plan) (record { bytes = 0; failures = [] }) s
          (no_failure f'.failures clean) in
      (bytes ∙ total_bytes_lem plan, gone)

  apply_loop_other :
      (ms : List Manifest) (f : Freed) (s : S) (j : Text)
      → All (λ m. (manifest_key m.id ≢ j) × (m.artifact_key ≢ j)) ms
      → view (apply_loop b ms f s).1 j ≡ view s j
  unfolding apply_loop
  apply_loop_other [] f s j apart = refl
  apply_loop_other (m ∷ ms) f s j apart =
      let (f', s') = apply_one b m f s in
      let h1 : view (b.delete (manifest_key m.id) s).1 j ≡ view s j =
        st.delete_other (manifest_key m.id) s j apart.0.0 in
      apply_loop_other ms f' s' j apart.1 ∙ (elim (apply_one-cases b view st m f s) [
        | inl e ↦ ap (λ x. view x j) e ∙ h1
        | inr (_, e) ↦ ap (λ x. view x j) e ∙ st.delete_other m.artifact_key _ j apart.0.1 ∙ h1
      ])

  -- `Apply` touches no key but those of the backups that the plan removes, whatever fails.
  apply_other :
      (plan : Plan) (s : S) (j : Text)
      → All (λ m. (manifest_key m.id ≢ j) × (m.artifact_key ≢ j)) (remove plan)
      → view (apply b plan s).1 j ≡ view s j
  unfolding apply
  apply_other plan s j apart = apply_loop_other (remove plan) _ s j apart

-- ===== src/Artifact/Reads.antt =====
-- Reading manifests changes no object of the store.
use backwyn.Prelude.{◌≡◌, refl, ap, ◌∙◌, Result-cases, Option, List, [], ◌∷◌, arith, inl, inr}
use backwyn.Prelude.Text.{Text, lit}
use backwyn.Storage.{Backend, IsStore}
use backwyn.Manifest.{Json, manifest_key}
use backwyn.Artifact.Load.{load, load_key, load_keys, load_all}

module _ {S : Type 0} (b : Backend S) (j : Json) (view : S → Text → Option Text)
    (st : IsStore b view) where
  pub load-view : (id : Text) (s : S) (i : Text) → view (load b j id s).1 i ≡ view s i
  unfolding load
  load-view id s i = elim (Result-cases (b.get (manifest_key id) s).0) [
    | inl (r, got) ↦ ap (λ x. view x i) (ground arith) ∙ st.get_view (manifest_key id) s i
    | inr (e, failed) ↦ ap (λ x. view x i) (ground arith) ∙ st.get_view (manifest_key id) s i
  ]

  load_key-view : (k : Text) (s : S) (i : Text) → view (load_key b j k s).1 i ≡ view s i
  unfolding load_key
  load_key-view k s i = elim (Result-cases (b.get k s).0) [
    | inl (r, got) ↦ ap (λ x. view x i) (ground arith) ∙ st.get_view k s i
    | inr (e, failed) ↦ ap (λ x. view x i) (ground arith) ∙ st.get_view k s i
  ]

  load_keys-view : (ks : List Text) (s : S) (i : Text) → view (load_keys b j ks s).1 i ≡ view s i
  unfolding load_keys
  load_keys-view [] s i = refl
  load_keys-view (k ∷ ks) s i =
      let s' = (load_key b j k s).1 in
      let rest : view (load_keys b j ks s').1 i ≡ view s i =
        load_keys-view ks s' i ∙ load_key-view k s i in
      elim (Result-cases (load_key b j k s).0) [
        | inr (e, failed) ↦ ap (λ x. view x i) (ground arith) ∙ load_key-view k s i
        | inl (m, read) ↦ elim (Result-cases (load_keys b j ks s').0) [
          | inl (ms, read') ↦ ap (λ x. view x i) (ground arith) ∙ rest
          | inr (e, failed) ↦ ap (λ x. view x i) (ground arith) ∙ rest
        ]
      ]

  pub load_all-view : (s : S) (i : Text) → view (load_all b j s).1 i ≡ view s i
  unfolding load_all
  load_all-view s i = elim (Result-cases (b.list (lit "manifests/") s).0) [
    | inl (ks, listed) ↦
        ap (λ x. view x i) (ground arith)
        ∙ load_keys-view ks (b.list (lit "manifests/") s).1 i
        ∙ st.list_view (lit "manifests/") s i
    | inr (e, failed) ↦ ap (λ x. view x i) (ground arith) ∙ st.list_view (lit "manifests/") s i
  ]

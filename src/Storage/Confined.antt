-- ===== src/Storage/Confined.antt =====
-- A store for some keys only: what a program that uses no other key sees of a store that keeps its
-- promises on these.
use mathlib.Core.Logic.Or
use mathlib.Core.Bool.{Bool-set}
use mathlib.Core.List.{Mem, mem-cons, mem-cons_of_mem, mem-cons_self, Mem-prop, not-mem-nil}
use backwyn.Prelude.{
  ◌≡◌, ◌≢◌, ◌↔◌, refl, sym, ap, ◌∙◌, inl, inr, Bool, true, Option, none, some, List, [], ◌∷◌,
  Result, ok, err, Bool-cases, arith, if◌then◌else◌,
}
use backwyn.Prelude.Text.{Text, lit, has_prefix}
use backwyn.Storage.{Reader, Backend, IsStore, IsStoreOn}

unfoldable only : (Text → Bool) → List Text → List Text
only f [] = []
only f (k ∷ ks) = let rest = only f ks in if f k then k ∷ rest else rest

unfoldable only_ok :
    {S : Type 0} → (Text → Bool) → Result Text (List Text) × S → Result Text (List Text) × S
unfolding only
only_ok f (err e, s) = (err e, s)
only_ok f (ok ks, s) = (ok (only f ks), s)

abbrev refusal : {A S : Type 0} → S → Result Text A × S
refusal s = (err (lit "no such key"), s)

unfoldable pub confined : {S : Type 0} → (Text → Bool) → Backend S → Backend S
unfolding only_ok
confined f b = record {
  put = λ k r s. if f k then b.put k r s else refusal s;
  get = λ k s. if f k then b.get k s else refusal s;
  list = λ p s. only_ok f (b.list p s);
  stat = λ k s. if f k then b.stat k s else refusal s;
  delete = λ k s. if f k then b.delete k s else (ok tt, s);
}

-- The objects under those keys.
abbrev pub within : {S : Type 0} → (Text → Bool) → (S → Text → Option Text) → S → Text → Option Text
within f view s k = if f k then view s k else none

mem-only :
    (f : Text → Bool) (k : Text) (ks : List Text) → Mem k (only f ks) ↔ ((f k ≡ true) × Mem k ks)
unfolding only
mem-only f k [] = (λ m. absurd (not-mem-nil m), λ h. h.1)
mem-only f k (j ∷ ks) =
    let (to, from) = mem-only f k ks in
    elim (Bool-cases (f j)) [
      | inl kept ↦ rw kept (
        λ m. (
          Or.elim (Bool-set _ _) (mem-cons.0 m) (λ e. ap f e ∙ kept) (λ r. (to r).0),
          Or.elim Mem-prop (mem-cons.0 m) (λ e. rw e mem-cons_self)
              (λ r. mem-cons_of_mem j (to r).1),
        ),
        λ h.
            Or.elim Mem-prop (mem-cons.0 h.1) (λ e. rw e mem-cons_self)
              (λ r. mem-cons_of_mem j (from (h.0, r))),
      )
      | inr left_out ↦ rw left_out (
        λ m. ((to m).0, mem-cons_of_mem j (to m).1),
        λ h.
            Or.elim Mem-prop (mem-cons.0 h.1) (λ e. absurd (ground (arith, ap f e, h.0, left_out)))
              (λ r. from (h.0, r)),
      )
    ]

only_ok-ok :
    {S : Type 0} (f : Text → Bool) (x : Result Text (List Text) × S) (ks : List Text)
    → (only_ok f x).0 ≡ ok ks
    → (ls : List Text) × (x.0 ≡ ok ls) × (only f ls ≡ ks)
unfolding only_ok
only_ok-ok f (err e, s) ks h = absurd (ground arith)
only_ok-ok f (ok ls, s) ks h = (ls, refl, ground arith)

only_ok-state :
    {S : Type 0} (f : Text → Bool) (x : Result Text (List Text) × S) → (only_ok f x).1 ≡ x.1
unfolding only_ok
only_ok-state f (err e, s) = refl
only_ok-state f (ok ls, s) = refl

module _ {S : Type 0} (f : Text → Bool) (b : Backend S) (view : S → Text → Option Text)
    (st : IsStoreOn (λ k. f k ≡ true) b view) where
  -- Where two states have the same object under a key, they have within the keys.
  within-same :
      (s s' : S) (j : Text)
      → (f j ≡ true → view s' j ≡ view s j)
      → within f view s' j ≡ within f view s j
  within-same s s' j h = elim (Bool-cases (f j)) [
    | inl kept ↦ rw kept (h kept)
    | inr left_out ↦ rw left_out refl
  ]

  put-ok :
      (k : Text) (r : Reader) (s : S)
      → ((confined f b).put k r s).0 ≡ ok tt
      → (r.fault ≡ none) × (within f view ((confined f b).put k r s).1 k ≡ some r.bytes)
  unfolding confined
  put-ok k r s h = elim (Bool-cases (f k)) [
    | inl kept ↦ let h' = (rw kept at h) in rw kept (st.put_ok k r s kept h')
    | inr left_out ↦ let h' = (rw left_out at h) in absurd (ground arith)
  ]

  put-err :
      (k : Text) (r : Reader) (s : S) (e : Text)
      → ((confined f b).put k r s).0 ≡ err e
      → within f view ((confined f b).put k r s).1 k ≡ within f view s k
  unfolding confined
  put-err k r s e h = elim (Bool-cases (f k)) [
    | inl kept ↦ let h' = (rw kept at h) in rw kept (st.put_err k r s e kept h')
    | inr left_out ↦ rw left_out refl
  ]

  put-other :
      (k : Text) (r : Reader) (s : S) (j : Text)
      → k ≢ j
      → within f view ((confined f b).put k r s).1 j ≡ within f view s j
  unfolding confined
  put-other k r s j n = elim (Bool-cases (f k)) [
    | inl kept ↦ rw kept (within-same s (b.put k r s).1 j (λ p. st.put_other k r s j kept p n))
    | inr left_out ↦ rw left_out refl
  ]

  get-view :
      (k : Text) (s : S) (j : Text) → within f view ((confined f b).get k s).1 j ≡ within f view s j
  unfolding confined
  get-view k s j = elim (Bool-cases (f k)) [
    | inl kept ↦ rw kept (within-same s (b.get k s).1 j (λ p. st.get_view k s j))
    | inr left_out ↦ rw left_out refl
  ]

  get-ok :
      (k : Text) (s : S) (r : Reader)
      → ((confined f b).get k s).0 ≡ ok r
      → r.fault ≡ none
      → within f view s k ≡ some r.bytes
  unfolding confined
  get-ok k s r h g = elim (Bool-cases (f k)) [
    | inl kept ↦ let h' = (rw kept at h) in rw kept (st.get_ok k s r h' g)
    | inr left_out ↦ let h' = (rw left_out at h) in absurd (ground arith)
  ]

  list-ok :
      (p : Text) (s : S) (ks : List Text)
      → ((confined f b).list p s).0 ≡ ok ks
      → (k : Text) → Mem k ks ↔ ((has_prefix k p ≡ true) × (within f view s k ≢ none))
  unfolding confined
  list-ok p s ks h k =
      let (ls, listed, e) = only_ok-ok f (b.list p s) ks h in
      let (to, from) = mem-only f k ls in
      elim (Bool-cases (f k)) [
        | inl kept ↦
            let (stored, found) = st.list_ok p s ls listed k kept in
            rw (sym e, kept) (λ m. stored (to m).1, λ c. from (kept, found c))
        | inr left_out ↦
            rw (sym e, left_out)
              (λ m. absurd (ground (arith, (to m).0, left_out)), λ c. absurd (c.1 refl))
      ]

  stat-view :
      (k : Text) (s : S) (j : Text)
      → within f view ((confined f b).stat k s).1 j ≡ within f view s j
  unfolding confined
  stat-view k s j = elim (Bool-cases (f k)) [
    | inl kept ↦ rw kept (within-same s (b.stat k s).1 j (λ p. st.stat_view k s j))
    | inr left_out ↦ rw left_out refl
  ]

  delete-ok :
      (k : Text) (s : S)
      → ((confined f b).delete k s).0 ≡ ok tt
      → within f view ((confined f b).delete k s).1 k ≡ none
  unfolding confined
  delete-ok k s h = elim (Bool-cases (f k)) [
    | inl kept ↦ let h' = (rw kept at h) in rw kept (st.delete_ok k s h')
    | inr left_out ↦ rw left_out refl
  ]

  delete-err :
      (k : Text) (s : S) (e : Text)
      → ((confined f b).delete k s).0 ≡ err e
      → within f view ((confined f b).delete k s).1 k ≡ within f view s k
  unfolding confined
  delete-err k s e h = elim (Bool-cases (f k)) [
    | inl kept ↦ let h' = (rw kept at h) in rw kept (st.delete_err k s e h')
    | inr left_out ↦ rw left_out refl
  ]

  delete-other :
      (k : Text) (s : S) (j : Text)
      → k ≢ j
      → within f view ((confined f b).delete k s).1 j ≡ within f view s j
  unfolding confined
  delete-other k s j n = elim (Bool-cases (f k)) [
    | inl kept ↦ rw kept (within-same s (b.delete k s).1 j (λ p. st.delete_other k s j kept p n))
    | inr left_out ↦ rw left_out refl
  ]

  list-view :
      (p : Text) (s : S) (j : Text)
      → within f view ((confined f b).list p s).1 j ≡ within f view s j
  unfolding confined
  list-view p s j =
      ap (λ z. within f view z j) (only_ok-state f (b.list p s))
      ∙ within-same s (b.list p s).1 j (λ q. st.list_view p s j)

  -- A store that keeps its promises on some keys keeps them all for a program confined to these.
  pub confined-IsStore : IsStore (confined f b) (within f view)
  confined-IsStore = record {
    put_ok = put-ok;
    put_err = λ k r s e h. inl (put-err k r s e h);
    put_other = put-other;
    get_view = get-view;
    get_ok = get-ok;
    list_view = list-view;
    list_ok = list-ok;
    stat_view = stat-view;
    delete_ok = delete-ok;
    delete_err = λ k s e h. inl (delete-err k s e h);
    delete_other = delete-other;
  }

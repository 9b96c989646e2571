-- ===== src/Storage/Local/Listed.antt =====
-- internal/storage/storage.go: which keys `List` yields.
use mathlib.Core.Logic.Or
use mathlib.Core.Path.{subst}
use mathlib.Core.List.{Mem, mem-cons, mem-cons_of_mem, mem-cons_self, Mem-prop, not-mem-nil}
use mathlib.Core.HLevel.{⊥_prop}
use mathlib.Core.Bool.{Bool-set}
use backwyn.Prelude.{
  ◌≡◌, ◌≢◌, refl, sym, ap, ◌∙◌, inl, inr, Bool, true, false, Option, none, some, List, [], ◌∷◌,
  ◌++◌, Result, ok, err, Bool-cases, All, arith, if◌then◌else◌,
}
use backwyn.Prelude.Text.{Text, has_prefix}
use backwyn.Prelude.Text.Paths.{FilePath, join_path}
use backwyn.Storage.Files.{Visit, CleanVisit, SeenVisit}
use backwyn.Storage.Local.{key_of, collect, visit_all}
use backwyn.Storage.Local.Keys.{IsKey, join_path-key_of}

-- What a visit adds to the keys.
abbrev added : Text → Text → Bool → List Text → List Text
added prefix key true ks = ks
added prefix key false ks = if has_prefix key prefix then key ∷ ks else ks

collect-ok :
    (prefix key : Text) (is_dir : Bool) (fault : Option Text) (rest : Result Text (List Text))
    (ks : List Text)
    → collect prefix key is_dir fault rest ≡ ok ks
    → (fault ≡ none) × (r : List Text) × (rest ≡ ok r) × (ks ≡ added prefix key is_dir r)
unfolding collect
collect-ok prefix key d (some e) rest ks h = absurd (ground arith)
collect-ok prefix key d none (err e) ks h = absurd (ground arith)
collect-ok prefix key true none (ok r) ks h = (refl, r, refl, ground arith)
collect-ok prefix key false none (ok r) ks h = (refl, r, refl, ground arith)

added_keeps :
    (prefix key : Text) (d : Bool) (ks : List Text) (k : Text)
    → Mem k ks
    → Mem k (added prefix key d ks)
added_keeps prefix key true ks k m = m
added_keeps prefix key false ks k m = elim (Bool-cases (has_prefix key prefix)) [
  | inl q ↦ rw q (mem-cons_of_mem key m)
  | inr q ↦ rw q m
]

added_own :
    (prefix key : Text) (ks : List Text)
    → has_prefix key prefix ≡ true
    → Mem key (added prefix key false ks)
added_own prefix key ks h = rw h mem-cons_self

-- A key that a visit lists is its own, of a file and with the prefix, or a later one's.
added_cases :
    (C : Type 0) (prefix key : Text) (d : Bool) (ks : List Text) (k : Text)
    → IsProp C
    → Mem k (added prefix key d ks)
    → (k ≡ key → d ≡ false → has_prefix key prefix ≡ true → C)
    → (Mem k ks → C)
    → C
added_cases C prefix key true ks k p m own later = later m
added_cases C prefix key false ks k p m own later = elim (Bool-cases (has_prefix key prefix)) [
  | inl q ↦ Or.elim p (mem-cons.0 (rw q at m)) (λ e. own e refl q) later
  | inr q ↦ later (rw q at m)
]

module _ (dir : FilePath) (prefix : Text) where
  -- The step of the walk, for a walk that yields keys.
  abbrev Step : Visit → List Visit → List Text → Type 0
  Step v vs ks =
      (v.fault ≡ none)
      × (r : List Text) × (visit_all dir prefix vs ≡ ok r)
      × (ks ≡ added prefix (key_of dir v.path) v.is_dir r)

  visit_all-step :
      (v : Visit) (vs : List Visit) (ks : List Text)
      → visit_all dir prefix (v ∷ vs) ≡ ok ks
      → Step v vs ks
  unfolding visit_all
  visit_all-step v vs ks h =
      collect-ok prefix (key_of dir v.path) v.is_dir v.fault (visit_all dir prefix vs) ks h

  -- A walk that yields keys had no error.
  pub visit_all-clean :
      (vs : List Visit) (ks : List Text) → visit_all dir prefix vs ≡ ok ks → All CleanVisit vs
  visit_all-clean [] ks h = tt
  visit_all-clean (v ∷ vs) ks h =
      let (clean, r, e, _) = visit_all-step v vs ks h in (clean, visit_all-clean vs r e)

  -- The keys have the prefix.
  pub visit_all-prefix :
      (vs : List Visit) (ks : List Text) (k : Text)
      → visit_all dir prefix vs ≡ ok ks
      → Mem k ks
      → has_prefix k prefix ≡ true
  unfolding visit_all
  visit_all-prefix [] ks k h m =
      let none_here : [] ≡ ks = ground arith in absurd (not-mem-nil (rw (sym none_here) at m))
  visit_all-prefix (v ∷ vs) ks k h m =
      let (_, r, e, a) = visit_all-step v vs ks h in
      added_cases (has_prefix k prefix ≡ true) prefix (key_of dir v.path) v.is_dir r k
        (Bool-set _ _) (rw a at m) (λ same d q. rw same q) (visit_all-prefix vs r k e)

  -- The keys that stand for one file each have a file.
  pub visit_all-exists :
      (tree : FilePath → Option Text) (vs : List Visit) (ks : List Text) (k : Text)
      → All (SeenVisit tree dir) vs
      → visit_all dir prefix vs ≡ ok ks
      → IsKey k
      → Mem k ks
      → tree (join_path dir k) ≢ none
  unfolding visit_all
  visit_all-exists tree [] ks k seen h p m gone =
      let none_here : [] ≡ ks = ground arith in not-mem-nil (rw (sym none_here) at m)
  visit_all-exists tree (v ∷ vs) ks k seen h p m gone =
      let (_, r, e, a) = visit_all-step v vs ks h in
      let (cs, at, plain, file) = seen.0 in
      added_cases ⊥ prefix (key_of dir v.path) v.is_dir r k ⊥_prop (rw a at m)
        (λ same d q.
          let here : k ≡ key_of dir (dir ++ cs) = same ∙ ap (key_of dir) at in
          let path : join_path dir k ≡ v.path =
            ap (join_path dir) here
            ∙ (join_path-key_of dir cs plain (subst IsKey here p) ∙ sym at) in
          file d (ap tree (sym path) ∙ gone))
        (λ later. visit_all-exists tree vs r k seen.1 e p later gone)

  -- The file of a visit is listed when its key has the prefix.
  pub visit_all-lists :
      (vs : List Visit) (ks : List Text) (q : FilePath)
      → visit_all dir prefix vs ≡ ok ks
      → Mem (record { path = q; is_dir = false; fault = none }) vs
      → has_prefix (key_of dir q) prefix ≡ true
      → Mem (key_of dir q) ks
  visit_all-lists [] ks q h m g = absurd (not-mem-nil m)
  visit_all-lists (v ∷ vs) ks q h m g =
      let (_, r, e, a) = visit_all-step v vs ks h in
      rw a (
        Or.elim Mem-prop (mem-cons.0 m)
          (λ same.
            subst (λ w. Mem (key_of dir q) (added prefix (key_of dir w.path) w.is_dir r)) same
              (added_own prefix (key_of dir q) r g))
          (λ later.
            added_keeps prefix (key_of dir v.path) v.is_dir r (key_of dir q)
              (visit_all-lists vs r q e later g)))

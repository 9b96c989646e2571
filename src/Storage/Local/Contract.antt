-- ===== src/Storage/Local/Contract.antt =====
-- internal/storage/storage.go: the store in a directory keeps the contract of an object store.
use mathlib.Core.Path.{subst}
use mathlib.Core.List.Perm
use mathlib.Core.List.{Mem}
use backwyn.Prelude.{
  ◌≡◌, ◌≢◌, ◌↔◌, ◌⊎◌, refl, sym, ap, ◌∙◌, inl, inr, true, Option, none, List, ◌++◌, Result, ok, err,
  arith,
}
use backwyn.Prelude.Text.{Text, has_prefix}
use backwyn.Prelude.Text.Paths.{FilePath, join_path}
use backwyn.Prelude.Text.Sort.{Ascending, sort_strings, sort_strings-perm, sort_strings-Ascending}
use backwyn.Storage.{IsStoreOn}
use backwyn.Storage.Files.{Files, FileError, IsFiles}
use backwyn.Storage.Local.{key_of, visit_all, sorted, after_remove, get, list, delete, stat, local}
use backwyn.Prelude.Text.Split.{split}
use backwyn.Storage.Local.Listed.{
  visit_all-clean, visit_all-prefix, visit_all-exists, visit_all-lists,
}
use backwyn.Storage.Local.Keys.{
  join_path-key, IsKey, key_of-join_path, join_path-injective, join_path-temp,
}
use backwyn.Storage.Local.Kept.{Permanent, put-Stored}

unfoldable pub view_of :
    {H : Type 0} → (H → FilePath → Option Text) → FilePath → H → Text → Option Text
view_of tree dir h k = tree h (join_path dir k)

sorted-ok :
    (r : Result Text (List Text)) (ks : List Text)
    → sorted r ≡ ok ks
    → (ls : List Text) × (r ≡ ok ls) × (sort_strings ls ≡ ks)
unfolding sorted
sorted-ok (err e) ks h = absurd (ground arith)
sorted-ok (ok ls) ks h = (ls, refl, ground arith)

after_remove-ok :
    {H : Type 0} (key : Text) (x : Result FileError (Unit {0}) × H)
    → (after_remove key x).0 ≡ ok tt
    → (x.0 ≡ ok tt) ⊎ ((e : FileError) × (x.0 ≡ err e) × (e.is_missing ≡ true))
unfolding after_remove
after_remove-ok key (ok u, h) g = inl refl
after_remove-ok key (err e, h) g = inr (e, refl, ground arith)

after_remove-err :
    {H : Type 0} (key : Text) (x : Result FileError (Unit {0}) × H) (f : Text)
    → (after_remove key x).0 ≡ err f
    → (e : FileError) × (x.0 ≡ err e)
unfolding after_remove
after_remove-err key (ok u, h) f g = absurd (ground arith)
after_remove-err key (err e, h) f g = (e, refl)

after_remove-state :
    {H : Type 0} (key : Text) (x : Result FileError (Unit {0}) × H) → (after_remove key x).1 ≡ x.1
unfolding after_remove
after_remove-state key (ok u, h) = refl
after_remove-state key (err e, h) = refl

permanent : (dir : FilePath) (k : Text) → IsKey k → Permanent (join_path dir k)
permanent dir k p d r e = join_path-temp dir d r k p (sym e)

module _ {H : Type 0} (fs : Files H) (tree : H → FilePath → Option Text) (laws : IsFiles fs tree)
    (dir : FilePath) where
  list_iff :
      (p : Text) (h : H) (ks : List Text)
      → (list fs dir p h).0 ≡ ok ks
      → (k : Text) → IsKey k
      → Mem k ks ↔ ((has_prefix k p ≡ true) × (view_of tree dir h k ≢ none))
  unfolding list view_of
  list_iff p h ks g k key =
      let vs = (fs.walk dir h).0 in
      let (ls, found, e) = sorted-ok (visit_all dir p vs) ks g in
      let clean = visit_all-clean dir p vs ls found in
      let to : Mem k ks → Mem k ls =
        λ m. (Perm.mem_iff (sort_strings-perm ls)).0 (rw (sym e) at m) in
      (
        λ m. (
          visit_all-prefix dir p vs ls k found (to m),
          visit_all-exists dir p (tree h) vs ls k (laws.walk_seen dir h clean) found key (to m),
        ),
        λ c.
            let at = join_path-key dir k key in
            let name : key_of dir (dir ++ split k 47) ≡ k =
              ap (key_of dir) (sym at) ∙ key_of-join_path dir k key in
            let stored : tree h (dir ++ split k 47) ≢ none = λ gone. c.1 (ap (tree h) at ∙ gone) in
            let m : Mem (key_of dir (dir ++ split k 47)) ls =
              visit_all-lists dir p vs ls (dir ++ split k 47) found
                (laws.walk_all dir h (split k 47) clean stored)
                (subst (λ j. has_prefix j p ≡ true) (sym name) c.0) in
            subst (λ js. Mem k js) e
              ((Perm.mem_iff (sort_strings-perm ls)).1 (subst (λ j. Mem j ls) name m)),
      )

  delete-other :
      (k : Text) (h : H) (q : FilePath)
      → join_path dir k ≢ q
      → tree (delete fs dir k h).1 q ≡ tree h q
  unfolding delete
  delete-other k h q n =
      let x = fs.remove (join_path dir k) h in
      ap (λ g. tree g q) (after_remove-state k x) ∙ laws.remove_other (join_path dir k) h q n

  delete-ok :
      (k : Text) (h : H)
      → (delete fs dir k h).0 ≡ ok tt
      → tree (delete fs dir k h).1 (join_path dir k) ≡ none
  unfolding delete
  delete-ok k h g =
      let q = join_path dir k in
      let state = ap (λ s. tree s q) (after_remove-state k (fs.remove q h)) in
      elim (after_remove-ok k (fs.remove q h) g) [
        | inl done ↦ state ∙ laws.remove_ok q h done
        | inr (e, failed, missing) ↦ state ∙ laws.remove_missing q h e failed missing
      ]

  delete-err :
      (k : Text) (h : H) (f : Text)
      → (delete fs dir k h).0 ≡ err f
      → tree (delete fs dir k h).1 (join_path dir k) ≡ tree h (join_path dir k)
  unfolding delete
  delete-err k h f g =
      let q = join_path dir k in
      let (e, failed) = after_remove-err k (fs.remove q h) f g in
      ap (λ s. tree s q) (after_remove-state k (fs.remove q h)) ∙ laws.remove_err q h e failed

  list-sorted : (p : Text) (h : H) (ks : List Text) → (list fs dir p h).0 ≡ ok ks → Ascending ks
  unfolding list
  list-sorted p h ks g =
      let (ls, found, e) = sorted-ok (visit_all dir p (fs.walk dir h).0) ks g in
      subst Ascending e (sort_strings-Ascending ls)

  -- For every file system that keeps its promises, the store in a directory keeps those of an object
  -- store on the keys without empty, `.`, `..` and `.tmp-` components: a `Put` that succeeds has stored
  -- all that its reader yields and met no fault; a `Put` or a `Delete` that fails, at any of its steps,
  -- leaves the object as it was; neither touches another key; `List` yields, in ascending order, those
  -- keys with the prefix that have an object; and `Get`, `List` and `Stat` change nothing.
  pub local-IsStoreOn : IsStoreOn IsKey (local fs dir) (view_of tree dir)
  unfolding local get stat list view_of
  local-IsStoreOn = record {
    put_ok = λ k r h p g. (put-Stored fs tree laws dir k r h (permanent dir k p)).1 g;
    put_err = λ k r h e p g. (put-Stored fs tree laws dir k r h (permanent dir k p)).2 e g;
    put_other = λ k r h j p q n.
        (put-Stored fs tree laws dir k r h (permanent dir k p)).0 (join_path dir j)
          (permanent dir j q) (λ e. n (join_path-injective dir k j p q e));
    get_view = λ k h j. laws.open_tree (join_path dir k) h (join_path dir j);
    get_ok = λ k h r g f. laws.open_ok (join_path dir k) h r g f;
    list_view = λ p h j. laws.walk_tree dir h (join_path dir j);
    list_ok = λ p h ks g k q. list_iff p h ks g k q;
    list_sorted = list-sorted;
    stat_view = λ k h j. laws.stat_tree (join_path dir k) h (join_path dir j);
    delete_ok = delete-ok;
    delete_err = delete-err;
    delete_other = λ k h j p q n.
        delete-other k h (join_path dir j) (λ e. n (join_path-injective dir k j p q e));
  }

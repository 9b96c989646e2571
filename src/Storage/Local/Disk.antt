-- ===== src/Storage/Local/Disk.antt =====
-- A disk with room for one object and one temporary file, on which every other call fails. It shows
-- that the promises of `IsFiles` can be kept.
use mathlib.Core.Path.{subst}
use mathlib.Core.List.{Mem, mem-append_left, mem-append_right, mem-cons_of_mem, mem-cons_self}
use backwyn.Prelude.{
  ◌≡◌, ◌≢◌, ◌↔◌, refl, sym, inl, inr, Bool, true, false, ◌&&◌, Option, none, some, List, [], ◌∷◌,
  ◌++◌, Result, ok, err, Bool-cases, All, arith, if◌then◌else◌,
}
use backwyn.Prelude.Text.{Text, lit, text_eq, text_eq_iff}
use backwyn.Prelude.Text.Paths.{FilePath, all, without_slash}
use backwyn.Storage.{Reader}
use backwyn.Storage.Files.{Files, FileError, IsFiles, Visit, CleanVisit, SeenVisit}

abbrev pub root : FilePath
root = lit "d" ∷ []

abbrev object_path : FilePath
object_path = lit "d" ∷ lit "manifests" ∷ lit "a" ∷ []

abbrev temp_path : FilePath
temp_path = lit "d" ∷ lit "manifests" ∷ (lit ".tmp-" ++ lit "1") ∷ []

abbrev folder : FilePath
folder = lit "d" ∷ lit "manifests" ∷ []

pub record Disk : Type 0 where
  pub object : Option Text
  pub temp : Option Text

unfoldable pub path_eq : FilePath → FilePath → Bool
path_eq [] [] = true
path_eq [] (y ∷ q) = false
path_eq (x ∷ p) [] = false
path_eq (x ∷ p) (y ∷ q) = text_eq x y && path_eq p q

path_eq_iff : (p q : FilePath) → (path_eq p q ≡ true) ↔ (p ≡ q)
unfolding path_eq
path_eq_iff [] [] = ground arith
path_eq_iff [] (y ∷ q) = ground arith
path_eq_iff (x ∷ p) [] = ground arith
path_eq_iff (x ∷ p) (y ∷ q) = ground (arith, path_eq_iff p q, text_eq_iff x y)

different : path_eq object_path temp_path ≡ false
unfolding path_eq text_eq lit
different = refl

different' : path_eq temp_path object_path ≡ false
unfolding path_eq text_eq lit
different' = refl

-- The content of the file at a path.
unfoldable pub tree : Disk → FilePath → Option Text
unfolding path_eq
tree h q = if path_eq q object_path then h.object else if path_eq q temp_path then h.temp else none

abbrev io_error : {A : Type 0} → Disk → Result Text A × Disk
io_error h = (err (lit "input/output error"), h)

-- `create_temp`, `copy`, `rename` and `remove` on the two files.
unfoldable create : Option Text → Disk → Result Text FilePath × Disk
create none h = (ok temp_path, record h { temp = some [] })
create (some b) h = io_error h

unfoldable fill : Option Text → Reader → Disk → Result Text (Unit {0}) × Disk
fill none r h = io_error h
fill (some b) r h =
    let h' = record h { temp = some (b ++ r.bytes) } in
    elim r.fault [ none ↦ (ok tt, h') | some e ↦ (err e, h') ]

unfoldable move : Option Text → Disk → Result Text (Unit {0}) × Disk
move none h = io_error h
move (some b) h = (ok tt, record h { object = some b; temp = none })

abbrev missing : Result FileError (Unit {0})
missing = err (record { message = lit "no such file"; is_missing = true })

unfoldable drop_file : Option Text → Disk → Disk → Result FileError (Unit {0}) × Disk
drop_file none h h' = (missing, h)
drop_file (some b) h h' = (ok tt, h')

unfoldable read_file : Option Text → Result Text Reader
read_file none = err (lit "no such file")
read_file (some b) = ok (record { bytes = b; fault = none })

abbrev dir_at : FilePath → Visit
dir_at p = record { path = p; is_dir = true; fault = none }

unfoldable file_at : FilePath → Option Text → List Visit
file_at p none = []
file_at p (some b) = record { path = p; is_dir = false; fault = none } ∷ []

unfoldable pub disk : Files Disk
unfolding tree create fill move drop_file read_file file_at path_eq
disk = record {
  mkdir_all = λ d h. (ok tt, h);
  create_temp =
      λ d p h. if path_eq (d ++ (p ++ lit "1") ∷ []) temp_path then create h.temp h else io_error h;
  copy = λ t r h. if path_eq t temp_path then fill h.temp r h else io_error h;
  close = λ t h. (ok tt, h);
  rename =
      λ t d h. if path_eq t temp_path && path_eq d object_path then move h.temp h else io_error h;
  open_file = λ p h. (read_file (tree h p), h);
  walk = λ d h. (
    if path_eq d root
        then dir_at root
          ∷ (dir_at folder ∷ (file_at temp_path h.temp ++ file_at object_path h.object))
        else record { path = d; is_dir = true; fault = some (lit "input/output error") } ∷ [],
    h,
  );
  remove = λ p h.
      if path_eq p object_path
      then drop_file h.object h (record h { object = none })
      else if path_eq p temp_path
      then drop_file h.temp h (record h { temp = none })
      else (missing, h);
  stat = λ p h. (err (lit "input/output error"), h);
}

All-append : (P : Visit → Type 0) (vs ws : List Visit) → All P vs → All P ws → All P (vs ++ ws)
All-append P [] ws a b = b
All-append P (v ∷ vs) ws a b = (a.0, All-append P vs ws a.1 b)

seen_file :
    (tr : FilePath → Option Text) (cs : List Text) (o : Option Text)
    → all without_slash cs ≡ true
    → tr (root ++ cs) ≡ o
    → All (SeenVisit tr root) (file_at (root ++ cs) o)
unfolding file_at
seen_file tr cs none h e = tt
seen_file tr cs (some b) h e = ((cs, refl, h, λ d g. absurd (ground arith)), tt)

listed_file :
    (p : FilePath) (o : Option Text)
    → o ≢ none
    → Mem (record { path = p; is_dir = false; fault = none }) (file_at p o)
unfolding file_at
listed_file p none g = absurd (g refl)
listed_file p (some b) g = mem-cons_self

tree-temp : (h : Disk) → tree h temp_path ≡ h.temp
unfolding tree
tree-temp h = ground (arith, different', path_eq_iff temp_path temp_path)

tree-object : (h : Disk) → tree h object_path ≡ h.object
unfolding tree
tree-object h = ground (arith, path_eq_iff object_path object_path)

abbrev visits : Disk → List Visit
unfolding file_at
visits h =
    dir_at root ∷ (dir_at folder ∷ (file_at temp_path h.temp ++ file_at object_path h.object))

seen_visits : (h : Disk) → All (SeenVisit (tree h) root) (visits h)
unfolding lit visits
seen_visits h = (
  ([], refl, refl, λ f. absurd (ground arith)),
  (
    (lit "manifests" ∷ [], refl, refl, λ f. absurd (ground arith)),
    All-append (SeenVisit (tree h) root) (file_at temp_path h.temp) (file_at object_path h.object)
        (seen_file (tree h) (lit "manifests" ∷ (lit ".tmp-" ++ lit "1") ∷ []) h.temp refl
          (tree-temp h))
        (seen_file (tree h) (lit "manifests" ∷ lit "a" ∷ []) h.object refl (tree-object h)),
  ),
)

listed_visits :
    (h : Disk) (q : FilePath)
    → tree h q ≢ none
    → Mem (record { path = q; is_dir = false; fault = none }) (visits h)
unfolding tree visits
listed_visits h q g = elim (Bool-cases (path_eq q object_path)) [
  | inl object ↦ rw ((path_eq_iff q object_path).0 object) (
      mem-cons_of_mem (dir_at root) (
        mem-cons_of_mem (dir_at folder) (
          mem-append_right (file_at temp_path h.temp)
            (listed_file object_path h.object (rw object at g)))))
  | inr other ↦ elim (Bool-cases (path_eq q temp_path)) [
    | inl temp ↦ rw ((path_eq_iff q temp_path).0 temp) (
        mem-cons_of_mem (dir_at root) (
          mem-cons_of_mem (dir_at folder) (
            mem-append_left (file_at object_path h.object)
              (listed_file temp_path h.temp (rw (other, temp) at g)))))
    | inr no_file ↦ absurd ((rw (other, no_file) at g) refl)
  ]
]

walk_seen :
    (d : FilePath) (h : Disk)
    → All CleanVisit (disk.walk d h).0
    → All (SeenVisit (tree h) d) (disk.walk d h).0
unfolding disk tree
walk_seen d h c = elim (Bool-cases (path_eq d root)) [
  | inr other ↦
      let f : some (lit "input/output error") ≡ none = (rw other at c).0 in absurd (ground arith)
  | inl here ↦
      let e : d ≡ root = (path_eq_iff d root).0 here in
      simp here (subst (λ r. All (SeenVisit (tree h) r) (visits h)) (sym e) (seen_visits h))
]

walk_all :
    (d : FilePath) (h : Disk) (cs : List Text)
    → All CleanVisit (disk.walk d h).0
    → tree h (d ++ cs) ≢ none
    → Mem (record { path = d ++ cs; is_dir = false; fault = none }) (disk.walk d h).0
unfolding disk tree
walk_all d h cs c g = elim (Bool-cases (path_eq d root)) [
  | inr other ↦
      let f : some (lit "input/output error") ≡ none = (rw other at c).0 in absurd (ground arith)
  | inl here ↦ simp here (listed_visits h (d ++ cs) g)
]

pub disk-IsFiles : IsFiles disk tree
unfolding disk tree
disk-IsFiles = record {
  mkdir_tree = λ d h q. refl;
  temp_name =
      λ d p h t g. (lit "1", ground (arith, path_eq_iff (d ++ (p ++ lit "1") ∷ []) temp_path));
  temp_new = λ d p h t g. ground (
    arith,
    different,
    different',
    path_eq_iff t temp_path,
    path_eq_iff t object_path,
    path_eq_iff (d ++ (p ++ lit "1") ∷ []) temp_path,
  );
  temp_other = λ d p h q n. ground (
    arith,
    different,
    different',
    path_eq_iff q temp_path,
    path_eq_iff q object_path,
    path_eq_iff (d ++ (p ++ lit "1") ∷ []) temp_path,
  );
  copy_ok = λ t r h b g e. ground (arith, different, different', path_eq_iff t temp_path);
  copy_other = λ t r h q n. ground (
    arith,
    different,
    different',
    path_eq_iff q object_path,
    path_eq_iff q temp_path,
    path_eq_iff t temp_path,
  );
  close_tree = λ t h q. refl;
  rename_ok = λ t d h g.
      ground (arith, different, different', path_eq_iff t temp_path, path_eq_iff d object_path);
  rename_err = λ t d h e q g. ground (
    arith,
    different,
    different',
    path_eq_iff q object_path,
    path_eq_iff q temp_path,
    path_eq_iff t temp_path,
    path_eq_iff d object_path,
  );
  rename_other = λ t d h q n m. ground (
    arith,
    different,
    different',
    path_eq_iff q object_path,
    path_eq_iff q temp_path,
    path_eq_iff t temp_path,
    path_eq_iff d object_path,
  );
  open_tree = λ p h q. refl;
  open_ok = λ p h r g f. ground (arith, different);
  walk_tree = λ d h q. refl;
  walk_seen = λ d h c. walk_seen d h c;
  walk_all = λ d h cs c g. walk_all d h cs c g;
  remove_ok = λ p h g.
      ground (arith, different, different', path_eq_iff p object_path, path_eq_iff p temp_path);
  remove_missing = λ p h e g m.
      ground (arith, different, different', path_eq_iff p object_path, path_eq_iff p temp_path);
  remove_err = λ p h e g.
      ground (arith, different, different', path_eq_iff p object_path, path_eq_iff p temp_path);
  remove_other = λ p h q n. ground (
    arith,
    different,
    different',
    path_eq_iff q object_path,
    path_eq_iff q temp_path,
    path_eq_iff p object_path,
    path_eq_iff p temp_path,
  );
  stat_tree = λ p h q. refl;
}

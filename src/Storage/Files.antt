-- ===== src/Storage/Files.antt =====
-- What storage.Local uses of the file system of `os`, and what that promises.
use mathlib.Core.List.{Mem}
use backwyn.Prelude.{
  ◌≡◌, ◌≢◌, ℕ, Bool, true, false, Option, none, some, List, [], ◌∷◌, ◌++◌, Result, ok, err, All,
}
use backwyn.Prelude.Text.{Text}
use backwyn.Prelude.Text.Paths.{FilePath, all, without_slash}
use backwyn.Storage.{Reader}

-- An error, and `os.IsNotExist` of it.
pub record FileError : Type 0 where
  pub message : Text
  pub is_missing : Bool

-- One call of the function given to `filepath.Walk`.
pub record Visit : Type 0 where
  pub path : FilePath
  pub is_dir : Bool
  pub fault : Option Text

-- `create_temp d p` is `os.CreateTemp(d, p + "*")`. `copy` is `io.Copy` to an open file.
pub record Files (H : Type 0) : Type 0 where
  pub mkdir_all : FilePath → H → Result Text (Unit {0}) × H
  pub create_temp : FilePath → Text → H → Result Text FilePath × H
  pub copy : FilePath → Reader → H → Result Text (Unit {0}) × H
  pub close : FilePath → H → Result Text (Unit {0}) × H
  pub rename : FilePath → FilePath → H → Result Text (Unit {0}) × H
  pub open_file : FilePath → H → Result Text Reader × H
  pub walk : FilePath → H → List Visit × H
  pub remove : FilePath → H → Result FileError (Unit {0}) × H
  pub stat : FilePath → H → Result Text ℕ × H

abbrev pub CleanVisit : Visit → Type 0
CleanVisit v = v.fault ≡ none

-- A visit below `root`; a file that is visited exists.
abbrev pub SeenVisit : (FilePath → Option Text) → FilePath → Visit → Type 0
SeenVisit tree root v =
    (cs : List Text) × (v.path ≡ root ++ cs)
    × (all without_slash cs ≡ true)
    × (v.is_dir ≡ false → tree v.path ≢ none)

-- `tree` gives the content of the file at each path. A temporary file is new, a rename is atomic,
-- and a walk without an error visits every file once it is below the root.
pub record IsFiles {H : Type 0} (fs : Files H) (tree : H → FilePath → Option Text) : Type 0 where
  pub mkdir_tree : (d : FilePath) (h : H) (q : FilePath) → tree (fs.mkdir_all d h).1 q ≡ tree h q
  pub temp_name :
      (d : FilePath) (p : Text) (h : H) (t : FilePath)
      → (fs.create_temp d p h).0 ≡ ok t
      → (r : Text) × (t ≡ d ++ (p ++ r) ∷ [])
  pub temp_new :
      (d : FilePath) (p : Text) (h : H) (t : FilePath)
      → (fs.create_temp d p h).0 ≡ ok t
      → (tree h t ≡ none) × (tree (fs.create_temp d p h).1 t ≡ some [])
  pub temp_other :
      (d : FilePath) (p : Text) (h : H) (q : FilePath)
      → ((fs.create_temp d p h).0 ≢ ok q)
      → tree (fs.create_temp d p h).1 q ≡ tree h q
  pub copy_ok :
      (t : FilePath) (r : Reader) (h : H) (b : Text)
      → (fs.copy t r h).0 ≡ ok tt
      → tree h t ≡ some b
      → (r.fault ≡ none) × (tree (fs.copy t r h).1 t ≡ some (b ++ r.bytes))
  pub copy_other :
      (t : FilePath) (r : Reader) (h : H) (q : FilePath)
      → t ≢ q
      → tree (fs.copy t r h).1 q ≡ tree h q
  pub close_tree : (t : FilePath) (h : H) (q : FilePath) → tree (fs.close t h).1 q ≡ tree h q
  pub rename_ok :
      (t d : FilePath) (h : H) → (fs.rename t d h).0 ≡ ok tt → tree (fs.rename t d h).1 d ≡ tree h t
  pub rename_err :
      (t d : FilePath) (h : H) (e : Text) (q : FilePath)
      → (fs.rename t d h).0 ≡ err e
      → tree (fs.rename t d h).1 q ≡ tree h q
  pub rename_other :
      (t d : FilePath) (h : H) (q : FilePath)
      → t ≢ q
      → d ≢ q
      → tree (fs.rename t d h).1 q ≡ tree h q
  pub open_tree : (p : FilePath) (h : H) (q : FilePath) → tree (fs.open_file p h).1 q ≡ tree h q
  pub open_ok :
      (p : FilePath) (h : H) (r : Reader)
      → (fs.open_file p h).0 ≡ ok r
      → r.fault ≡ none
      → tree h p ≡ some r.bytes
  pub walk_tree : (root : FilePath) (h : H) (q : FilePath) → tree (fs.walk root h).1 q ≡ tree h q
  pub walk_seen :
      (root : FilePath) (h : H)
      → All CleanVisit (fs.walk root h).0
      → All (SeenVisit (tree h) root) (fs.walk root h).0
  pub walk_all :
      (root : FilePath) (h : H) (cs : List Text)
      → All CleanVisit (fs.walk root h).0
      → tree h (root ++ cs) ≢ none
      → Mem (record { path = root ++ cs; is_dir = false; fault = none }) (fs.walk root h).0
  pub remove_ok :
      (p : FilePath) (h : H) → (fs.remove p h).0 ≡ ok tt → tree (fs.remove p h).1 p ≡ none
  pub remove_missing :
      (p : FilePath) (h : H) (e : FileError)
      → (fs.remove p h).0 ≡ err e
      → e.is_missing ≡ true
      → tree (fs.remove p h).1 p ≡ none
  pub remove_err :
      (p : FilePath) (h : H) (e : FileError)
      → (fs.remove p h).0 ≡ err e
      → tree (fs.remove p h).1 p ≡ tree h p
  pub remove_other :
      (p : FilePath) (h : H) (q : FilePath) → p ≢ q → tree (fs.remove p h).1 q ≡ tree h q
  pub stat_tree : (p : FilePath) (h : H) (q : FilePath) → tree (fs.stat p h).1 q ≡ tree h q

-- ===== src/Storage/Local.antt =====
-- internal/storage/storage.go: `Local`, the store in a directory.
pub mod Keys
pub mod Kept
pub mod Listed
pub mod Contract
pub mod Disk
use backwyn.Prelude.{
  ℕ, Bool, true, false, Option, none, some, List, [], ◌∷◌, ◌++◌, Result, ok, err, if◌then◌else◌,
}
use backwyn.Prelude.Text.{Text, lit, has_prefix}
use backwyn.Prelude.Text.Paths.{FilePath, parent, join_path, rel, to_slash}
use backwyn.Prelude.Text.Sort.{sort_strings}
use backwyn.Storage.{Reader, Backend}
use backwyn.Storage.Files.{Files, FileError, Visit}

-- `NewLocal` behind `os.MkdirAll`
unfoldable pub after_mkdir :
    {H : Type 0} → FilePath → Result Text (Unit {0}) × H → Result Text FilePath × H
after_mkdir dir (err e, h) = (err (lit "create storage dir: " ++ e), h)
after_mkdir dir (ok _, h) = (ok dir, h)

-- `NewLocal`: the directory of the store.
unfoldable pub new_local : {H : Type 0} → Files H → FilePath → H → Result Text FilePath × H
unfolding after_mkdir
new_local fs dir h = after_mkdir dir (fs.mkdir_all dir h)

-- The key of a file that `List` visits.
unfoldable pub key_of : FilePath → FilePath → Text
unfolding rel to_slash
key_of dir p = to_slash (rel dir p)

-- The function that `List` gives to `filepath.Walk`, with the keys of the visits behind this one.
unfoldable pub collect :
    Text → Text → Bool → Option Text → Result Text (List Text) → Result Text (List Text)
collect prefix key is_dir (some e) rest = err e
collect prefix key is_dir none (err e) = err e
collect prefix key true none (ok ks) = ok ks
collect prefix key false none (ok ks) = ok (if has_prefix key prefix then key ∷ ks else ks)

unfoldable pub visit_all : FilePath → Text → List Visit → Result Text (List Text)
unfolding collect key_of
visit_all dir prefix [] = ok []
visit_all dir prefix (v ∷ vs) =
    collect prefix (key_of dir v.path) v.is_dir v.fault (visit_all dir prefix vs)

unfoldable pub sorted : Result Text (List Text) → Result Text (List Text)
unfolding sort_strings
sorted (err e) = err e
sorted (ok ks) = ok (sort_strings ks)

-- `Delete` behind `os.Remove`
unfoldable pub after_remove :
    {H : Type 0} → Text → Result FileError (Unit {0}) × H → Result Text (Unit {0}) × H
after_remove key (ok _, h) = (ok tt, h)
after_remove key (err e, h) =
    (if e.is_missing then ok tt else err (lit "delete " ++ (key ++ (lit ": " ++ e.message))), h)

module _ {H : Type 0} (fs : Files H) where
  -- `Put` behind `tmp.Close`
  unfoldable pub after_closed :
      FilePath → FilePath → Result Text (Unit {0}) × H → Result Text (Unit {0}) × H
  after_closed dst tmp (err e, h) = (err e, h)
  after_closed dst tmp (ok _, h) = fs.rename tmp dst h

  -- `Put` behind `io.Copy`
  unfoldable pub after_copied :
      FilePath → FilePath → Result Text (Unit {0}) × H → Result Text (Unit {0}) × H
  unfolding after_closed
  after_copied dst tmp (err e, h) = (err e, (fs.close tmp h).1)
  after_copied dst tmp (ok _, h) = after_closed dst tmp (fs.close tmp h)

  -- `Put` behind `os.CreateTemp`; the deferred removal is last.
  unfoldable pub after_created :
      FilePath → Reader → Result Text FilePath × H → Result Text (Unit {0}) × H
  unfolding after_copied
  after_created dst r (err e, h) = (err e, h)
  after_created dst r (ok tmp, h) =
      let (res, h') = after_copied dst tmp (fs.copy tmp r h) in (res, (fs.remove tmp h').1)

  -- `Put` behind `os.MkdirAll`
  unfoldable pub after_parent :
      FilePath → Reader → Result Text (Unit {0}) × H → Result Text (Unit {0}) × H
  unfolding after_created parent
  after_parent dst r (err e, h) = (err e, h)
  after_parent dst r (ok _, h) = after_created dst r (fs.create_temp (parent dst) (lit ".tmp-") h)

module _ {H : Type 0} (fs : Files H) (dir : FilePath) where
  -- `Put`
  unfoldable pub put : Text → Reader → H → Result Text (Unit {0}) × H
  unfolding after_parent join_path
  put key r h = let dst = join_path dir key in after_parent fs dst r (fs.mkdir_all (parent dst) h)

  -- `Get`
  unfoldable pub get : Text → H → Result Text Reader × H
  unfolding join_path
  get key h = fs.open_file (join_path dir key) h

  -- `List`
  unfoldable pub list : Text → H → Result Text (List Text) × H
  unfolding visit_all sorted
  list prefix h = let (vs, h') = fs.walk dir h in (sorted (visit_all dir prefix vs), h')

  -- `Delete`
  unfoldable pub delete : Text → H → Result Text (Unit {0}) × H
  unfolding after_remove join_path
  delete key h = after_remove key (fs.remove (join_path dir key) h)

  -- `Stat`
  unfoldable pub stat : Text → H → Result Text ℕ × H
  unfolding join_path
  stat key h = fs.stat (join_path dir key) h

  unfoldable pub local : Backend H
  unfolding put get list delete stat
  local = record { put = put; get = get; list = list; stat = stat; delete = delete }

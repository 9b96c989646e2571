-- ===== src/Storage/Tests.antt =====
-- internal/storage: runs on the disk and on the bucket.
use backwyn.Prelude.{◌≡◌, ◌⊎◌, refl, true, none, some, [], ◌∷◌, ◌++◌, ok, err, ◌≤◌, arith}
use backwyn.Prelude.Text.{Text, lit, text_eq, has_prefix, join}
use backwyn.Prelude.Text.Split.{split}
use backwyn.Prelude.Text.Paths.{enter}
use backwyn.Prelude.Text.Sort.{sort_strings}
use backwyn.Storage.{Reader, IsStore, IsStoreOn}
use backwyn.Storage.Local.{local}
use backwyn.Storage.Local.Keys.{IsKey}
use backwyn.Storage.Local.Contract.{view_of, local-IsStoreOn}
use backwyn.Storage.Local.Disk.{Disk, disk, disk-IsFiles, root, tree}
use backwyn.Storage.S3.{Bucket, s3, list}
use backwyn.Storage.S3.Contract.{s3-IsStore}
use backwyn.Storage.S3.Pages.{PageError, list_lem}
use backwyn.Storage.S3.Drawer.{drawer, drawer-IsClient, contents, ahead, left, start}
use backwyn.Storage.Memory.Assoc.{Objects, keys}

abbrev hello : Reader
hello = record { bytes = 104 ∷ 105 ∷ []; fault = none }

abbrev cut : Reader
cut = record { bytes = 104 ∷ []; fault = some (lit "unexpected EOF") }

abbrev old : Disk
old = record { object = some (111 ∷ []); temp = none }

put_runs :
    (local disk root).put (lit "manifests/a") hello old
    ≡ (ok tt, record { object = some (104 ∷ 105 ∷ []); temp = none })
unfolding local disk split lit enter text_eq
put_runs = refl

put_fails : (local disk root).put (lit "manifests/a") cut old ≡ (err (lit "unexpected EOF"), old)
unfolding local disk split lit enter text_eq
put_fails = refl

list_runs : ((local disk root).list (lit "manifests/") old).0 ≡ ok (lit "manifests/a" ∷ [])
unfolding local disk text_eq lit has_prefix join
list_runs = refl

-- A temporary file that a crash has left behind is listed.
list_leftover :
    ((local disk root).list (lit "manifests/") (record old { temp = some [] })).0
    ≡ ok (lit "manifests/.tmp-1" ∷ lit "manifests/a" ∷ [])
unfolding local disk text_eq lit has_prefix join
list_leftover = refl

local-IsStoreOn_example : IsStoreOn IsKey (local disk root) (view_of tree root)
local-IsStoreOn_example = local-IsStoreOn disk tree disk-IsFiles root

abbrev two : Objects
two = (lit "b", []) ∷ (lit "a", []) ∷ []

s3_list_runs : (list drawer 9 (lit "bucket") [] two).0 ≡ ok (lit "a" ∷ lit "b" ∷ [])
unfolding list drawer keys has_prefix lit
s3_list_runs = refl

two_pages : left (drawer.paginator (lit "bucket") []) two ≤ 9
unfolding left drawer keys has_prefix
two_pages = omega arith

list_lem_example :
    ((list drawer 9 (lit "bucket") [] two).0
      ≡ ok (sort_strings (ahead (drawer.paginator (lit "bucket") []) two)))
    ⊎ ((e : Text) × ((list drawer 9 (lit "bucket") [] two).0
          ≡ err (lit "s3 " ++ (lit "list" ++ (lit " " ++ ([] ++ (lit ": " ++ e))))))
        × PageError drawer (lit "bucket") contents ahead left (drawer-IsClient (lit "bucket")) e)
list_lem_example =
    list_lem drawer (lit "bucket") contents ahead left (drawer-IsClient (lit "bucket")) 9 [] two
      two_pages

abbrev bucket : Bucket
bucket = record {
  settings = record {
    region = lit "auto";
    access_key = [];
    secret_key = [];
    use_path_style = true;
    base_endpoint = none;
  };
  bucket = lit "b";
}

enough_pages :
    (p : Text) (s : Objects) → left (drawer.paginator bucket.bucket p) s ≤ left (start p) s
unfolding left drawer keys
enough_pages p s = omega arith

s3-IsStore_example : IsStore (s3 (λ o. drawer) (λ p s. left (start p) s) bucket) contents
s3-IsStore_example =
    s3-IsStore (λ o. drawer) bucket contents ahead left (λ p s. left (start p) s)
      (drawer-IsClient (lit "b")) enough_pages

-- ===== src/Storage/S3.antt =====
-- internal/storage/s3.go: `S3`, the store in a bucket.
pub mod Pages
pub mod Contract
pub mod Drawer
use backwyn.Prelude.{
  ℕ, zero, suc, Bool, true, false, Option, none, some, List, [], ◌∷◌, ◌++◌, Result, ok, err,
  if◌then◌else◌,
}
use backwyn.Prelude.Int.{ℤ, pos}
use backwyn.Prelude.Text.{Text, lit, text_eq}
use backwyn.Prelude.Text.Sort.{sort_strings}
use backwyn.Storage.{Reader, Backend}

-- `S3Options`
pub record S3Options : Type 0 where
  pub bucket : Text
  pub endpoint : Text
  pub region : Text
  pub access_key : Text
  pub secret_key : Text
  pub path_style : Bool

-- What `s3.New` is given: `s3.Options` without the two fixed checksum settings.
pub record Settings : Type 0 where
  pub region : Text
  pub access_key : Text
  pub secret_key : Text
  pub use_path_style : Bool
  pub base_endpoint : Option Text

-- `S3`: its client and uploader are those that the settings make.
pub record Bucket : Type 0 where
  pub settings : Settings
  pub bucket : Text

-- `NewS3`
unfoldable pub new_s3 : S3Options → Result Text Bucket
unfolding text_eq
new_s3 o =
    if text_eq o.bucket []
    then err (lit "s3: bucket is required")
    else ok (record {
      settings = record {
        region = if text_eq o.region [] then lit "auto" else o.region;
        access_key = o.access_key;
        secret_key = o.secret_key;
        use_path_style = o.path_style;
        base_endpoint = if text_eq o.endpoint [] then none else some o.endpoint;
      };
      bucket = o.bucket;
    })

-- A page of a listing: the keys of its objects, of which the service may leave some out.
pub record Page (P : Type 0) : Type 0 where
  pub contents : List (Option Text)
  pub pager : P

-- What is used of the client, over a state `S` of the service: `P` is the state of a paginator. The
-- length of an object may be missing.
pub record Client (S P : Type 0) : Type 0 where
  pub upload : Text → Text → Reader → S → Result Text (Unit {0}) × S
  pub get_object : Text → Text → S → Result Text Reader × S
  pub paginator : Text → Text → P
  pub has_more_pages : P → Bool
  pub next_page : P → S → Result Text (Page P) × S
  pub delete_object : Text → Text → S → Result Text (Unit {0}) × S
  pub head_object : Text → Text → S → Result Text (Option ℕ) × S

-- The keys that a page has.
unfoldable pub keys_of : List (Option Text) → List Text
keys_of [] = []
keys_of (none ∷ cs) = keys_of cs
keys_of (some k ∷ cs) = k ∷ keys_of cs

-- `fmt.Errorf("s3 <what> %s: %w", key, err)`
unfoldable pub s3_error : {A S : Type 0} → Text → Text → Result Text A × S → Result Text A × S
s3_error what key (err e, s) =
    (err (lit "s3 " ++ (what ++ (lit " " ++ (key ++ (lit ": " ++ e))))), s)
s3_error what key (ok a, s) = (ok a, s)

-- `Stat` behind `HeadObject`
unfoldable pub after_head : {S : Type 0} → Result Text (Option ℕ) × S → Result Text ℕ × S
after_head (err e, s) = (err e, s)
after_head (ok none, s) = (ok 0, s)
after_head (ok (some n), s) = (ok n, s)

module _ {S P : Type 0} (c : Client S P) where
  -- The keys of a page in front of those behind it.
  unfoldable pub onto_page :
      List (Option Text) → Result Text (List Text) × S → Result Text (List Text) × S
  unfolding keys_of
  onto_page cs (err e, s) = (err e, s)
  onto_page cs (ok ks, s) = (ok (keys_of cs ++ ks), s)

  -- The body of the loop of `List` behind `NextPage`; `rest` is what follows it.
  unfoldable pub after_page :
      (P → S → Result Text (List Text) × S) → Result Text (Page P) × S → Result Text (List Text) × S
  unfolding onto_page
  after_page rest (err e, s) = (err e, s)
  after_page rest (ok page, s) = onto_page page.contents (rest page.pager s)

  -- The loop of `List`, of which `fuel` bounds the pages.
  unfoldable pub pages : ℕ → P → S → Result Text (List Text) × S
  unfolding after_page
  pages zero p s = (if c.has_more_pages p then err (lit "out of fuel") else ok [], s)
  pages (suc fuel) p s =
      let rest = after_page (pages fuel) (c.next_page p s) in
      if c.has_more_pages p then rest else (ok [], s)

  -- `List` behind its loop.
  unfoldable pub after_pages : Result Text (List Text) × S → Result Text (List Text) × S
  unfolding sort_strings
  after_pages (err e, s) = (err e, s)
  after_pages (ok ks, s) = (ok (sort_strings ks), s)

  -- `Put`
  unfoldable pub put : Text → Text → Reader → S → Result Text (Unit {0}) × S
  unfolding s3_error
  put bucket key r s = s3_error (lit "put") key (c.upload bucket key r s)

  -- `Get`
  unfoldable pub get : Text → Text → S → Result Text Reader × S
  unfolding s3_error
  get bucket key s = s3_error (lit "get") key (c.get_object bucket key s)

  -- `List`
  unfoldable pub list : ℕ → Text → Text → S → Result Text (List Text) × S
  unfolding s3_error pages after_pages
  list fuel bucket prefix s =
      after_pages (s3_error (lit "list") prefix (pages fuel (c.paginator bucket prefix) s))

  -- `Delete`
  unfoldable pub delete : Text → Text → S → Result Text (Unit {0}) × S
  unfolding s3_error
  delete bucket key s = s3_error (lit "delete") key (c.delete_object bucket key s)

  -- `Stat`
  unfoldable pub stat : Text → Text → S → Result Text ℕ × S
  unfolding s3_error after_head
  stat bucket key s = after_head (s3_error (lit "stat") key (c.head_object bucket key s))

-- The store, with the client that the settings make; `fuel` bounds the pages of a listing.
unfoldable pub s3 : {S P : Type 0} → (Settings → Client S P) → (Text → S → ℕ) → Bucket → Backend S
unfolding put get list delete stat
s3 client fuel b =
    let c = client b.settings in
    record {
      put = put c b.bucket;
      get = get c b.bucket;
      list = λ p s. list c (fuel p s) b.bucket p s;
      stat = stat c b.bucket;
      delete = delete c b.bucket;
    }

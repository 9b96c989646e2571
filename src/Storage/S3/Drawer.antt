-- ===== src/Storage/S3/Drawer.antt =====
-- A service with one bucket, which lists one object on a page. It shows that the promises of
-- `IsClient` can be kept.
use mathlib.Core.Path.{subst}
use backwyn.Prelude.{
  ◌≡◌, refl, ◌<◌, ◌++◌, ℕ, suc, Bool, true, false, Option, none, some, List, [], ◌∷◌, Result, ok,
  err, length, arith,
}
use backwyn.Prelude.Text.{Text, lit, text_eq_iff}
use backwyn.Storage.{Reader}
use backwyn.Storage.Memory.Assoc.{
  Objects, find, insert, without, keys, find-insert, find-without, mem-keys,
}
use backwyn.Storage.S3.{Client, Page, keys_of}
use backwyn.Storage.S3.Pages.{IsClient}

-- A listing of a prefix that has not begun, or the keys that it has still to yield.
pub data Pager : Type 0 where
  start : Text → Pager
  rest : List Text → Pager

unfoldable stored : Text → Reader → Objects → Result Text (Unit {0}) × Objects
stored k r o = elim r.fault [ none ↦ (ok tt, insert k r.bytes o) | some e ↦ (err e, o) ]

unfoldable found : {A : Type 0} → (Text → A) → Option Text → Result Text A
found f none = err (lit "NoSuchKey")
found f (some b) = ok (f b)

unfoldable page_of : List Text → Page Pager
page_of [] = record { contents = none ∷ []; pager = rest [] }
page_of (k ∷ ks) = record { contents = none ∷ some k ∷ []; pager = rest ks }

unfoldable pub ahead : Pager → Objects → List Text
ahead (start p) o = keys p o
ahead (rest ks) o = ks

unfoldable pub left : Pager → Objects → ℕ
left (start p) o = suc (length (keys p o))
left (rest ks) o = length ks

unfoldable is_more : Pager → Bool
is_more (start p) = true
is_more (rest []) = false
is_more (rest (k ∷ ks)) = true

abbrev pub contents : Objects → Text → Option Text
contents o k = find k o

unfoldable pub drawer : Client Objects Pager
unfolding ahead stored found page_of is_more
drawer = record {
  upload = λ b k r. stored k r;
  get_object = λ b k o. (found (λ bytes. record { bytes = bytes; fault = none }) (find k o), o);
  paginator = λ b p. start p;
  has_more_pages = is_more;
  next_page = λ p o. (ok (page_of (ahead p o)), o);
  delete_object = λ b k o. (ok tt, without k o);
  head_object = λ b k o. (found (λ bytes. some (length bytes)) (find k o), o);
}

last_page : (p : Pager) (o : Objects) → is_more p ≡ false → ahead p o ≡ []
unfolding is_more ahead
last_page (start p) o h = absurd (ground arith)
last_page (rest []) o h = refl
last_page (rest (k ∷ ks)) o h = absurd (ground arith)

more_pages : (p : Pager) (o : Objects) → is_more p ≡ true → 0 < left p o
unfolding is_more left
more_pages (start p) o h = omega arith
more_pages (rest []) o h = absurd (ground arith)
more_pages (rest (k ∷ ks)) o h = omega arith

-- A page takes one key, and the listing goes on behind it.
page_of-lem :
    (ks : List Text) (o : Objects)
    → (ks ≡ keys_of (page_of ks).contents ++ ahead (page_of ks).pager o)
      × (left (page_of ks).pager o < suc (length ks))
unfolding page_of ahead left keys_of
page_of-lem [] o = (refl, omega arith)
page_of-lem (k ∷ ks) o = (refl, omega arith)

page_cons :
    (k : Text) (ks : List Text) (o : Objects)
    → (k ∷ ks ≡ keys_of (page_of (k ∷ ks)).contents ++ ahead (page_of (k ∷ ks)).pager o)
      × (left (page_of (k ∷ ks)).pager o < suc (length ks))
unfolding page_of ahead left keys_of
page_cons k ks o = (refl, omega arith)

page_ok :
    (p : Pager) (o : Objects) (page : Page Pager)
    → is_more p ≡ true
    → (drawer.next_page p o).0 ≡ ok page
    → (ahead p o ≡ keys_of page.contents ++ ahead page.pager o) × (left page.pager o < left p o)
unfolding drawer ahead left is_more
page_ok (start p) o page h g =
    let e : page_of (keys p o) ≡ page = ground arith in
    subst
      (λ q.
        (keys p o ≡ keys_of q.contents ++ ahead q.pager o)
        × (left q.pager o < suc (length (keys p o))))
      e (page_of-lem (keys p o) o)
page_ok (rest []) o page h g = absurd (ground arith)
page_ok (rest (k ∷ ks)) o page h g =
    let e : page_of (k ∷ ks) ≡ page = ground arith in
    subst
      (λ q. (k ∷ ks ≡ keys_of q.contents ++ ahead q.pager o) × (left q.pager o < suc (length ks))) e
      (page_cons k ks o)

pub drawer-IsClient : (b : Text) → IsClient drawer b contents ahead left
unfolding drawer stored found ahead
drawer-IsClient b = record {
  upload_ok = λ k r o h. ground (arith, find-insert k k r.bytes o, text_eq_iff k k);
  upload_err = λ k r o e h. ground (arith, find-insert k k r.bytes o, text_eq_iff k k);
  upload_other = λ k r o j n. ground (arith, find-insert k j r.bytes o, text_eq_iff k j);
  get_view = λ k o j. refl;
  get_ok = λ k o r h f. ground arith;
  delete_ok = λ k o h. ground (arith, find-without k k o, text_eq_iff k k);
  delete_err = λ k o e h. absurd (ground arith);
  delete_other = λ k o j n. ground (arith, find-without k j o, text_eq_iff k j);
  head_view = λ k o j. refl;
  page_view = λ p o j. refl;
  first_page = λ p o k. mem-keys p k o;
  last_page = last_page;
  more_pages = more_pages;
  page_ok = page_ok;
}

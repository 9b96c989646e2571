-- ===== src/Storage/S3/Pages.antt =====
-- internal/storage/s3.go: the bucket as an object store.
use mathlib.Core.Path.{subst}
use mathlib.Core.List.{Mem}
use backwyn.Prelude.{
  ◌≡◌, ◌≢◌, ◌↔◌, ◌⊎◌, refl, sym, ap, ◌∙◌, inl, inr, ◌≤◌, ◌<◌, ℕ, zero, suc, true, false, Option,
  none, some, List, [], ◌++◌, Result, ok, err, Bool-cases, arith,
}
use backwyn.Prelude.Text.{Text, lit, has_prefix}
use backwyn.Prelude.Text.Sort.{sort_strings}
use backwyn.Storage.{Reader}
use backwyn.Storage.S3.{
  Client, Page, keys_of, s3_error, onto_page, pages, after_page, after_pages, list,
}

-- What the service and its client promise about one bucket: `view` is the object under each key, and
-- `ahead p s` are the keys that the paginator `p` has still to yield, on at most `left p s` pages.
pub record IsClient {S P : Type 0} (c : Client S P) (bucket : Text) (view : S → Text → Option Text)
    (ahead : P → S → List Text) (left : P → S → ℕ) : Type 0 where
  pub upload_ok :
      (k : Text) (r : Reader) (s : S)
      → (c.upload bucket k r s).0 ≡ ok tt
      → (r.fault ≡ none) × (view (c.upload bucket k r s).1 k ≡ some r.bytes)
  pub upload_err :
      (k : Text) (r : Reader) (s : S) (e : Text)
      → (c.upload bucket k r s).0 ≡ err e
      → (view (c.upload bucket k r s).1 k ≡ view s k)
        ⊎ (view (c.upload bucket k r s).1 k ≡ some r.bytes)
  pub upload_other :
      (k : Text) (r : Reader) (s : S) (j : Text)
      → k ≢ j
      → view (c.upload bucket k r s).1 j ≡ view s j
  pub get_view : (k : Text) (s : S) (j : Text) → view (c.get_object bucket k s).1 j ≡ view s j
  pub get_ok :
      (k : Text) (s : S) (r : Reader)
      → (c.get_object bucket k s).0 ≡ ok r
      → r.fault ≡ none
      → view s k ≡ some r.bytes
  pub delete_ok :
      (k : Text) (s : S)
      → (c.delete_object bucket k s).0 ≡ ok tt
      → view (c.delete_object bucket k s).1 k ≡ none
  pub delete_err :
      (k : Text) (s : S) (e : Text)
      → (c.delete_object bucket k s).0 ≡ err e
      → (view (c.delete_object bucket k s).1 k ≡ view s k)
        ⊎ (view (c.delete_object bucket k s).1 k ≡ none)
  pub delete_other :
      (k : Text) (s : S) (j : Text) → k ≢ j → view (c.delete_object bucket k s).1 j ≡ view s j
  pub head_view : (k : Text) (s : S) (j : Text) → view (c.head_object bucket k s).1 j ≡ view s j
  pub page_view : (p : P) (s : S) (j : Text) → view (c.next_page p s).1 j ≡ view s j
  pub first_page :
      (p : Text) (s : S) (k : Text)
      → Mem k (ahead (c.paginator bucket p) s) ↔ ((has_prefix k p ≡ true) × (view s k ≢ none))
  pub last_page : (p : P) (s : S) → c.has_more_pages p ≡ false → ahead p s ≡ []
  pub more_pages : (p : P) (s : S) → c.has_more_pages p ≡ true → 0 < left p s
  pub page_ok :
      (p : P) (s : S) (page : Page P)
      → c.has_more_pages p ≡ true
      → (c.next_page p s).0 ≡ ok page
      → (ahead p s ≡ keys_of page.contents ++ ahead page.pager (c.next_page p s).1)
        × (left page.pager (c.next_page p s).1 < left p s)

pub s3_error-ok :
    {A S : Type 0} (what key : Text) (x : Result Text A × S) (a : A)
    → (s3_error what key x).0 ≡ ok a
    → x.0 ≡ ok a
unfolding s3_error
s3_error-ok what key (err e, s) a h = absurd (ground arith)
s3_error-ok what key (ok b, s) a h = h

pub s3_error-err :
    {A S : Type 0} (what key : Text) (x : Result Text A × S) (e : Text)
    → (s3_error what key x).0 ≡ err e
    → (d : Text) × (x.0 ≡ err d)
unfolding s3_error
s3_error-err what key (err d, s) e h = (d, refl)
s3_error-err what key (ok b, s) e h = absurd (ground arith)

pub s3_error-state :
    {A S : Type 0} (what key : Text) (x : Result Text A × S) → (s3_error what key x).1 ≡ x.1
unfolding s3_error
s3_error-state what key (err d, s) = refl
s3_error-state what key (ok b, s) = refl

module _ {S P : Type 0} (c : Client S P) (bucket : Text) (view : S → Text → Option Text)
    (ahead : P → S → List Text) (left : P → S → ℕ) (laws : IsClient c bucket view ahead left) where
  -- The error of a page.
  abbrev pub PageError : Text → Type 0
  PageError e = (p : P) × (s : S) × ((c.next_page p s).0 ≡ err e)

  -- A listing that is right: the keys ahead, or the error of a page.
  abbrev Listed : List Text → Result Text (List Text) → Type 0
  Listed ks r = (r ≡ ok ks) ⊎ ((e : Text) × (r ≡ err e) × PageError e)

  onto_page-Listed :
      (cs : List (Option Text)) (ks : List Text) (x : Result Text (List Text) × S)
      → Listed ks x.0
      → Listed (keys_of cs ++ ks) (onto_page c cs x).0
  unfolding onto_page
  onto_page-Listed cs ks (ok ls, s) (inl h) =
      let e : ls ≡ ks = ground arith in inl (ap (λ l. ok (keys_of cs ++ l)) e)
  onto_page-Listed cs ks (ok ls, s) (inr (e, h, f)) = absurd (ground arith)
  onto_page-Listed cs ks (err d, s) (inl h) = absurd (ground arith)
  onto_page-Listed cs ks (err d, s) (inr (e, h, f)) = inr (e, h, f)

  after_page-Listed :
      (rest : P → S → Result Text (List Text) × S) (p : P) (s : S) (x : Result Text (Page P) × S)
      → c.next_page p s ≡ x
      → c.has_more_pages p ≡ true
      → ((q : P) (t : S) → left q t < left p s → Listed (ahead q t) (rest q t).0)
      → Listed (ahead p s) (after_page c rest x).0
  unfolding after_page
  after_page-Listed rest p s (err e, s') x more h = inr (e, refl, (p, s, ap (λ r. r.0) x))
  after_page-Listed rest p s (ok page, s') x more h =
      let (split_off, fewer) = laws.page_ok p s page more (ap (λ r. r.0) x) in
      let e : ahead p s ≡ keys_of page.contents ++ ahead page.pager s' =
        split_off ∙ ap (λ r. keys_of page.contents ++ ahead page.pager r.1) x in
      rw e (
        onto_page-Listed page.contents (ahead page.pager s') (rest page.pager s')
          (h page.pager s' (subst (λ r. left page.pager r.1 < left p s) x fewer)))

  -- The loop ends on fuel for the pages that are left.
  pages-Listed :
      (fuel : ℕ) (p : P) (s : S) → left p s ≤ fuel → Listed (ahead p s) (pages c fuel p s).0
  unfolding pages
  pages-Listed zero p s h = elim (Bool-cases (c.has_more_pages p)) [
    | inl more ↦ let some_left = laws.more_pages p s more in absurd (omega arith)
    | inr done ↦ rw done (inl (ap ok (sym (laws.last_page p s done))))
  ]
  pages-Listed (suc fuel) p s h = elim (Bool-cases (c.has_more_pages p)) [
    | inl more ↦ rw more (
        after_page-Listed (pages c fuel) p s (c.next_page p s) refl more
          (λ q t fewer. pages-Listed fuel q t (omega arith)))
    | inr done ↦ rw done (inl (ap ok (sym (laws.last_page p s done))))
  ]

  onto_page-state :
      (cs : List (Option Text)) (x : Result Text (List Text) × S) → (onto_page c cs x).1 ≡ x.1
  unfolding onto_page
  onto_page-state cs (err e, s) = refl
  onto_page-state cs (ok ks, s) = refl

  after_page-view :
      (rest : P → S → Result Text (List Text) × S) (j : Text) (x : Result Text (Page P) × S)
      → ((q : P) (t : S) → view (rest q t).1 j ≡ view t j)
      → view (after_page c rest x).1 j ≡ view x.1 j
  unfolding after_page
  after_page-view rest j (err e, s) h = refl
  after_page-view rest j (ok page, s) h =
      ap (λ t. view t j) (onto_page-state page.contents (rest page.pager s)) ∙ h page.pager s

  pages-view : (fuel : ℕ) (p : P) (s : S) (j : Text) → view (pages c fuel p s).1 j ≡ view s j
  unfolding pages
  pages-view zero p s j = refl
  pages-view (suc fuel) p s j = elim (Bool-cases (c.has_more_pages p)) [
    | inl more ↦ rw more (
        after_page-view (pages c fuel) j (c.next_page p s) (λ q t. pages-view fuel q t j)
        ∙ laws.page_view p s j)
    | inr done ↦ rw done refl
  ]

  after_pages-state : (x : Result Text (List Text) × S) → (after_pages c x).1 ≡ x.1
  unfolding after_pages
  after_pages-state (err e, s) = refl
  after_pages-state (ok ks, s) = refl

  pub list-view :
      (fuel : ℕ) (p : Text) (s : S) (j : Text) → view (list c fuel bucket p s).1 j ≡ view s j
  unfolding list
  list-view fuel p s j =
      let x = pages c fuel (c.paginator bucket p) s in
      ap (λ t. view t j) (after_pages-state (s3_error (lit "list") p x))
      ∙ (ap (λ t. view t j) (s3_error-state (lit "list") p x)
          ∙ pages-view fuel (c.paginator bucket p) s j)

  -- What `List` makes of the keys or the error of its loop.
  abbrev Answered : List Text → Text → Result Text (List Text) → Type 0
  Answered ks prefix r =
      (r ≡ ok (sort_strings ks))
      ⊎ ((e : Text) × (r
            ≡ err (lit "s3 " ++ (lit "list" ++ (lit " " ++ (prefix ++ (lit ": " ++ e))))))
          × PageError e)

  after_pages-Answered :
      (ks : List Text) (prefix : Text) (x : Result Text (List Text) × S)
      → Listed ks x.0
      → Answered ks prefix (after_pages c (s3_error (lit "list") prefix x)).0
  unfolding after_pages s3_error
  after_pages-Answered ks prefix (ok ls, s) (inl h) =
      let e : ls ≡ ks = ground arith in inl (ap (λ l. ok (sort_strings l)) e)
  after_pages-Answered ks prefix (ok ls, s) (inr (e, h, f)) = absurd (ground arith)
  after_pages-Answered ks prefix (err d, s) (inl h) = absurd (ground arith)
  after_pages-Answered ks prefix (err d, s) (inr (e, h, f)) =
      let same : d ≡ e = ground arith in
      inr (
        e,
        ap (λ m. err (lit "s3 " ++ (lit "list" ++ (lit " " ++ (prefix ++ (lit ": " ++ m)))))) same,
        f,
      )

  -- Where the loop may take as many pages as the paginator has left, `List` ends: it yields the keys
  -- of all pages, no key lost and none added, in ascending order, or the error of a page.
  pub list_lem :
      (fuel : ℕ) (prefix : Text) (s : S)
      → left (c.paginator bucket prefix) s ≤ fuel
      → Answered (ahead (c.paginator bucket prefix) s) prefix (list c fuel bucket prefix s).0
  unfolding list
  list_lem fuel prefix s h =
      let p = c.paginator bucket prefix in
      after_pages-Answered (ahead p s) prefix (pages c fuel p s) (pages-Listed fuel p s h)

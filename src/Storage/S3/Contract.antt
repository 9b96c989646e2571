-- ===== src/Storage/S3/Contract.antt =====
-- internal/storage/s3.go: the bucket keeps the promises of an object store.
use mathlib.Core.Path.{subst}
use mathlib.Core.List.{Mem}
use mathlib.Core.List.Perm
use backwyn.Prelude.{
  ◌≡◌, ◌≢◌, ◌↔◌, ◌⊎◌, refl, sym, ap, ◌∙◌, inl, inr, ◌≤◌, ℕ, true, Option, none, some, List, Result,
  ok, err, arith,
}
use backwyn.Prelude.Text.{Text, lit, has_prefix}
use backwyn.Prelude.Text.Sort.{sort_strings, sort_strings-perm}
use backwyn.Storage.{Reader, IsStore}
use backwyn.Storage.S3.{
  Client, Settings, Bucket, s3_error, after_head, put, get, list, delete, stat, s3,
}
use backwyn.Storage.S3.Pages.{
  IsClient, s3_error-ok, s3_error-err, s3_error-state, list_lem, list-view,
}

after_head-state : {S : Type 0} (x : Result Text (Option ℕ) × S) → (after_head x).1 ≡ x.1
unfolding after_head
after_head-state (err e, s) = refl
after_head-state (ok none, s) = refl
after_head-state (ok (some n), s) = refl

module _ {S P : Type 0} (c : Client S P) (bucket : Text) (view : S → Text → Option Text)
    (ahead : P → S → List Text) (left : P → S → ℕ) (laws : IsClient c bucket view ahead left) where
  -- A call whose error is reworded leaves the object that the call leaves.
  reworded-view :
      {A : Type 0} (what key j : Text) (x : Result Text A × S)
      → view (s3_error what key x).1 j ≡ view x.1 j
  reworded-view what key j x = ap (λ s. view s j) (s3_error-state what key x)

  list_iff :
      (fuel : ℕ) (p : Text) (s : S) (ks : List Text)
      → left (c.paginator bucket p) s ≤ fuel
      → (list c fuel bucket p s).0 ≡ ok ks
      → (k : Text) → Mem k ks ↔ ((has_prefix k p ≡ true) × (view s k ≢ none))
  list_iff fuel p s ks enough h k = elim (list_lem c bucket view ahead left laws fuel p s enough) [
    | inl e ↦
        let keys = ahead (c.paginator bucket p) s in
        let same : sort_strings keys ≡ ks = ground arith in
        let (to, from) = Perm.mem_iff (sort_strings-perm keys) in
        let (stored, listed) = laws.first_page p s k in
        (λ m. stored (to (rw (sym same) at m)), λ f. subst (λ js. Mem k js) same (from (listed f)))
    | inr (e, failed, _) ↦ absurd (ground arith)
  ]

  put-ok :
      (k : Text) (r : Reader) (s : S)
      → (put c bucket k r s).0 ≡ ok tt
      → (r.fault ≡ none) × (view (put c bucket k r s).1 k ≡ some r.bytes)
  unfolding put
  put-ok k r s h =
      let x = c.upload bucket k r s in
      let (all, stored) = laws.upload_ok k r s (s3_error-ok (lit "put") k x tt h) in
      (all, reworded-view (lit "put") k k x ∙ stored)

  put-err :
      (k : Text) (r : Reader) (s : S) (e : Text)
      → (put c bucket k r s).0 ≡ err e
      → (view (put c bucket k r s).1 k ≡ view s k) ⊎ (view (put c bucket k r s).1 k ≡ some r.bytes)
  unfolding put
  put-err k r s e h =
      let x = c.upload bucket k r s in
      let (d, f) = s3_error-err (lit "put") k x e h in
      let same = reworded-view (lit "put") k k x in
      elim (laws.upload_err k r s d f) [ inl kept ↦ inl (same ∙ kept) | inr new ↦ inr (same ∙ new) ]

  delete-err :
      (k : Text) (s : S) (e : Text)
      → (delete c bucket k s).0 ≡ err e
      → (view (delete c bucket k s).1 k ≡ view s k) ⊎ (view (delete c bucket k s).1 k ≡ none)
  unfolding delete
  delete-err k s e h =
      let x = c.delete_object bucket k s in
      let (d, f) = s3_error-err (lit "delete") k x e h in
      let same = reworded-view (lit "delete") k k x in
      elim (laws.delete_err k s d f) [ inl kept ↦ inl (same ∙ kept) | inr gone ↦ inr (same ∙ gone) ]

-- For every client that keeps the service's promises on the bucket, and as many pages as its listings
-- have, the store in the bucket is an object store: an upload or a removal that is reported done is
-- done, one that fails is done or not, neither touches another key, `List` yields exactly the keys with
-- the prefix that have an object, whatever the pages, and reading changes nothing.
pub s3-IsStore :
    {S P : Type 0} (client : Settings → Client S P) (b : Bucket) (view : S → Text → Option Text)
    (ahead : P → S → List Text) (left : P → S → ℕ) (fuel : Text → S → ℕ)
    → IsClient (client b.settings) b.bucket view ahead left
    → ((p : Text) (s : S) → left ((client b.settings).paginator b.bucket p) s ≤ fuel p s)
    → IsStore (s3 client fuel b) view
unfolding s3 put get delete stat
s3-IsStore client b view ahead left fuel laws enough =
    let c = client b.settings in
    record {
      put_ok = put-ok c b.bucket view ahead left laws;
      put_err = put-err c b.bucket view ahead left laws;
      put_other = λ k r s j n.
          reworded-view c b.bucket view ahead left laws (lit "put") k j (c.upload b.bucket k r s)
          ∙ laws.upload_other k r s j n;
      get_view = λ k s j.
          reworded-view c b.bucket view ahead left laws (lit "get") k j (c.get_object b.bucket k s)
          ∙ laws.get_view k s j;
      get_ok = λ k s r h f.
          laws.get_ok k s r (s3_error-ok (lit "get") k (c.get_object b.bucket k s) r h) f;
      list_view = λ p s j. list-view c b.bucket view ahead left laws (fuel p s) p s j;
      list_ok =
          λ p s ks h k. list_iff c b.bucket view ahead left laws (fuel p s) p s ks (enough p s) h k;
      stat_view = λ k s j.
          ap (λ t. view t j)
            (after_head-state (s3_error (lit "stat") k (c.head_object b.bucket k s)))
          ∙ (reworded-view c b.bucket view ahead left laws (lit "stat") k j
                (c.head_object b.bucket k s)
              ∙ laws.head_view k s j);
      delete_ok = λ k s h.
          reworded-view c b.bucket view ahead left laws (lit "delete") k k
            (c.delete_object b.bucket k s)
          ∙ laws.delete_ok k s (s3_error-ok (lit "delete") k (c.delete_object b.bucket k s) tt h);
      delete_err = delete-err c b.bucket view ahead left laws;
      delete_other = λ k s j n.
          reworded-view c b.bucket view ahead left laws (lit "delete") k j
            (c.delete_object b.bucket k s)
          ∙ laws.delete_other k s j n;
    }

-- ===== src/Storage.antt =====
-- internal/storage/storage.go: the object store that every component goes through.
pub mod Files
pub mod Local
pub mod Confined
pub mod S3
pub mod Memory
mod Tests
use mathlib.Core.List.{Mem}
use backwyn.Prelude.{◌≡◌, ◌≢◌, ◌↔◌, ◌⊎◌, ℕ, true, Option, none, some, List, Result, ok, err}
use backwyn.Prelude.Int.{ℤ}
use backwyn.Prelude.Text.{Text, has_prefix}
use backwyn.Prelude.Text.Sort.{Ascending}

-- What an `io.Reader` yields: bytes, and then the end or an error.
pub record Reader : Type 0 where
  pub bytes : Text
  pub fault : Option Text

-- `Backend`: each method takes the state of the store and returns its error or result, and the
-- state that it leaves. `Get` returns what the stream then yields.
pub record Backend (S : Type 0) : Type 0 where
  pub put : Text → Reader → S → Result Text (Unit {0}) × S
  pub get : Text → S → Result Text Reader × S
  pub list : Text → S → Result Text (List Text) × S
  pub stat : Text → S → Result Text ℕ × S
  pub delete : Text → S → Result Text (Unit {0}) × S

-- The object under each key, and what the methods promise about it. A write or a removal that
-- reports an error has been carried out or has not; it touches no other key.
pub record IsStore {S : Type 0} (b : Backend S) (view : S → Text → Option Text) : Type 0 where
  pub put_ok :
      (k : Text) (r : Reader) (s : S)
      → (b.put k r s).0 ≡ ok tt
      → (r.fault ≡ none) × (view (b.put k r s).1 k ≡ some r.bytes)
  pub put_err :
      (k : Text) (r : Reader) (s : S) (e : Text)
      → (b.put k r s).0 ≡ err e
      → (view (b.put k r s).1 k ≡ view s k) ⊎ (view (b.put k r s).1 k ≡ some r.bytes)
  pub put_other :
      (k : Text) (r : Reader) (s : S) (j : Text) → k ≢ j → view (b.put k r s).1 j ≡ view s j
  pub get_view : (k : Text) (s : S) (j : Text) → view (b.get k s).1 j ≡ view s j
  pub get_ok :
      (k : Text) (s : S) (r : Reader)
      → (b.get k s).0 ≡ ok r
      → r.fault ≡ none
      → view s k ≡ some r.bytes
  pub list_view : (p : Text) (s : S) (j : Text) → view (b.list p s).1 j ≡ view s j
  pub list_ok :
      (p : Text) (s : S) (ks : List Text)
      → (b.list p s).0 ≡ ok ks
      → (k : Text) → Mem k ks ↔ ((has_prefix k p ≡ true) × (view s k ≢ none))
  pub stat_view : (k : Text) (s : S) (j : Text) → view (b.stat k s).1 j ≡ view s j
  pub delete_ok : (k : Text) (s : S) → (b.delete k s).0 ≡ ok tt → view (b.delete k s).1 k ≡ none
  pub delete_err :
      (k : Text) (s : S) (e : Text)
      → (b.delete k s).0 ≡ err e
      → (view (b.delete k s).1 k ≡ view s k) ⊎ (view (b.delete k s).1 k ≡ none)
  pub delete_other : (k : Text) (s : S) (j : Text) → k ≢ j → view (b.delete k s).1 j ≡ view s j

-- `IsStore` for the keys that satisfy `P`; a call that fails there changes nothing.
pub record IsStoreOn {S : Type 0} (P : Text → Type 0) (b : Backend S)
    (view : S → Text → Option Text) : Type 0 where
  pub put_ok :
      (k : Text) (r : Reader) (s : S)
      → P k
      → (b.put k r s).0 ≡ ok tt
      → (r.fault ≡ none) × (view (b.put k r s).1 k ≡ some r.bytes)
  pub put_err :
      (k : Text) (r : Reader) (s : S) (e : Text)
      → P k
      → (b.put k r s).0 ≡ err e
      → view (b.put k r s).1 k ≡ view s k
  pub put_other :
      (k : Text) (r : Reader) (s : S) (j : Text)
      → P k
      → P j
      → k ≢ j
      → view (b.put k r s).1 j ≡ view s j
  pub get_view : (k : Text) (s : S) (j : Text) → view (b.get k s).1 j ≡ view s j
  pub get_ok :
      (k : Text) (s : S) (r : Reader)
      → (b.get k s).0 ≡ ok r
      → r.fault ≡ none
      → view s k ≡ some r.bytes
  pub list_view : (p : Text) (s : S) (j : Text) → view (b.list p s).1 j ≡ view s j
  pub list_ok :
      (p : Text) (s : S) (ks : List Text)
      → (b.list p s).0 ≡ ok ks
      → (k : Text) → P k
      → Mem k ks ↔ ((has_prefix k p ≡ true) × (view s k ≢ none))
  pub list_sorted : (p : Text) (s : S) (ks : List Text) → (b.list p s).0 ≡ ok ks → Ascending ks
  pub stat_view : (k : Text) (s : S) (j : Text) → view (b.stat k s).1 j ≡ view s j
  pub delete_ok : (k : Text) (s : S) → (b.delete k s).0 ≡ ok tt → view (b.delete k s).1 k ≡ none
  pub delete_err :
      (k : Text) (s : S) (e : Text) → (b.delete k s).0 ≡ err e → view (b.delete k s).1 k ≡ view s k
  pub delete_other :
      (k : Text) (s : S) (j : Text) → P k → P j → k ≢ j → view (b.delete k s).1 j ≡ view s j

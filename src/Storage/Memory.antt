-- ===== src/Storage/Memory.antt =====
-- A store in memory, each of whose calls may be made to fail: the faults ahead are part of its
-- state. It shows that the promises of `IsStore` can be kept.
pub mod Assoc
use mathlib.Core.List.{Mem}
use backwyn.Prelude.{
  ◌≡◌, ◌≢◌, ◌↔◌, ◌⊎◌, inl, inr, refl, Bool, true, false, Option, none, some, List, [], ◌∷◌, Result,
  ok, err, ℕ, arith, length, if◌then◌else◌,
}
use backwyn.Prelude.Text.{Text, lit, has_prefix, text_eq, text_eq_iff}
use backwyn.Storage.{Reader, Backend, IsStore}
use Assoc.{Objects, find, insert, without, keys, find-insert, find-without, mem-keys}

pub record Memory : Type 0 where
  pub objects : Objects
  pub faults : List Bool

-- Whether the next call fails, and the faults behind it.
abbrev fails : List Bool → Bool
fails [] = false
fails (b ∷ rest) = b

abbrev later : List Bool → List Bool
later [] = []
later (b ∷ rest) = rest

abbrev pub contents : Memory → Text → Option Text
contents m k = find k m.objects

-- A call of `f`, unless it is made to fail.
abbrev attempt :
    {A : Type 0} → (Objects → Result Text A × Objects) → Memory → Result Text A × Memory
attempt f m =
    if fails m.faults
    then (err (lit "unavailable"), record m { faults = later m.faults })
    else (let (r, o) = f m.objects in (r, record { objects = o; faults = later m.faults }))

abbrev found : {A : Type 0} → (Text → A) → Option Text → Result Text A
found f none = err (lit "no such key")
found f (some b) = ok (f b)

abbrev stored : Text → Reader → Objects → Result Text (Unit {0}) × Objects
stored k r o = elim r.fault [ none ↦ (ok tt, insert k r.bytes o) | some e ↦ (err e, o) ]

unfoldable pub memory : Backend Memory
memory = record {
  put = λ k r. attempt (stored k r);
  get = λ k. attempt (λ o. (found (λ b. record { bytes = b; fault = none }) (find k o), o));
  list = λ p. attempt (λ o. (ok (keys p o), o));
  stat = λ k. attempt (λ o. (found length (find k o), o));
  delete = λ k. attempt (λ o. (ok tt, without k o));
}

listed :
    (p : Text) (s : Memory) (ks : List Text)
    → (memory.list p s).0 ≡ ok ks
    → (k : Text) → Mem k ks ↔ ((has_prefix k p ≡ true) × (contents s k ≢ none))
unfolding memory
listed p s ks h k = let e : keys p s.objects ≡ ks = ground arith in rw e at (mem-keys p k s.objects)

pub memory-IsStore : IsStore memory contents
unfolding memory
memory-IsStore = record {
  put_ok = λ k r s h. ground (arith, find-insert k k r.bytes s.objects, text_eq_iff k k);
  put_err = λ k r s e h. ground (arith, find-insert k k r.bytes s.objects, text_eq_iff k k);
  put_other = λ k r s j h. ground (arith, find-insert k j r.bytes s.objects, text_eq_iff k j);
  get_view = λ k s j. ground arith;
  get_ok = λ k s r h f. ground arith;
  list_view = λ p s j. ground arith;
  list_ok = λ p s ks h k. listed p s ks h k;
  stat_view = λ k s j. ground arith;
  delete_ok = λ k s h. ground (arith, find-without k k s.objects, text_eq_iff k k);
  delete_err = λ k s e h. ground arith;
  delete_other = λ k s j h. ground (arith, find-without k j s.objects, text_eq_iff k j);
}

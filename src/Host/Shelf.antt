-- ===== src/Host/Shelf.antt =====
-- A machine whose state is the list of its temporary files, on which every program works.
use mathlib.Core.Path.{subst}
use backwyn.Prelude.{
  sym, ◌≡◌, refl, Bool, true, false, not, ◌&&◌, ◌||◌, Bool-cases, inl, inr, none, List, [], ◌∷◌,
  Result, ok, err, if◌then◌else◌, arith,
}
use backwyn.Prelude.Text.{Text, lit, text_eq, text_eq→eq}
use backwyn.Crypto.Stream.{endless}
use backwyn.Host.{Host}
use backwyn.Host.Temps.{IsHost}

-- Whether the list has the name.
unfoldable pub on_shelf : List Text → Text → Bool
unfolding text_eq
on_shelf [] q = false
on_shelf (p ∷ ps) q = text_eq p q || on_shelf ps q

unfoldable pub without : Text → List Text → List Text
unfolding text_eq
without p [] = []
without p (q ∷ qs) = let rest = without p qs in if text_eq p q then rest else q ∷ rest

abbrev pub taken : Bool → Text → List Text → Result Text Text × List Text
taken true p h = (err (lit "file exists"), h)
taken false p h = (ok p, p ∷ h)

-- `stdout` is what every program prints, and `content` what every file contains. A pattern is the
-- name of its file.
unfoldable pub shelf : Text → Text → Host (List Text)
unfolding on_shelf without
shelf stdout content = record {
  look_path = λ b h. none;
  exec = λ bin args h. (record { stdout = stdout; stderr = []; failure = none }, h);
  create_temp = λ p h. taken (on_shelf h p) p h;
  writer = λ p h. endless [];
  filled = λ p s h. h;
  close = λ p h. (ok tt, h);
  open_file = λ p h. (ok (record { bytes = content; fault = none }), h);
  remove = λ p h. without p h;
}

taken-new :
    (x : Bool) (p : Text) (h : List Text) (t : Text)
    → on_shelf h p ≡ x
    → (taken x p h).0 ≡ ok t
    → on_shelf h t ≡ false
taken-new true p h t e made = absurd (ground arith)
taken-new false p h t e made = ground (arith, e, made)

taken-ok :
    (x : Bool) (p : Text) (h : List Text) (t q : Text)
    → (taken x p h).0 ≡ ok t
    → on_shelf (taken x p h).1 q ≡ (text_eq t q || on_shelf h q)
unfolding on_shelf
taken-ok true p h t q made = absurd (ground arith)
taken-ok false p h t q made = ground (arith, made)

taken-err :
    (x : Bool) (p : Text) (h : List Text) (e q : Text)
    → (taken x p h).0 ≡ err e
    → on_shelf (taken x p h).1 q ≡ on_shelf h q
taken-err true p h e q failed = refl
taken-err false p h e q failed = absurd (ground arith)

-- A name that is one of two different ones is not the other.
text_eq-other :
    (p r q : Text) → text_eq p r ≡ false → text_eq p q ≡ true → (text_eq r q || false) ≡ false
text_eq-other p r q other gone = elim (Bool-cases (text_eq r q)) [
  | inl e ↦
      let same : text_eq p r ≡ true =
        subst (λ x. text_eq p x ≡ true) (sym (text_eq→eq r q e)) gone in
      absurd (ground (arith, other, same))
  | inr ne ↦ rw ne refl
]

without_lem :
    (p : Text) (h : List Text) (q : Text)
    → on_shelf (without p h) q ≡ (not (text_eq p q) && on_shelf h q)
unfolding on_shelf without
without_lem p [] q = ground arith
without_lem p (r ∷ h) q = elim (Bool-cases (text_eq p r)) [
  | inl same ↦ rw (same, sym (text_eq→eq p r same), without_lem p h q) (ground arith)
  | inr other ↦ elim (Bool-cases (text_eq p q)) [
    | inl gone ↦
        rw (other, gone, on_shelf, without_lem p h q, gone) (text_eq-other p r q other gone)
    | inr kept ↦ rw (other, kept, on_shelf, without_lem p h q, kept) refl
  ]
]

pub shelf-IsHost : (stdout content : Text) → IsHost (shelf stdout content) on_shelf
unfolding shelf
shelf-IsHost stdout content = record {
  temp_new = λ p h t made. taken-new (on_shelf h p) p h t refl made;
  temp_ok = λ p h t q made. taken-ok (on_shelf h p) p h t q made;
  temp_err = λ p h e q failed. taken-err (on_shelf h p) p h e q failed;
  exec_kept = λ bin args h q. refl;
  filled_kept = λ p s h q. refl;
  close_kept = λ p h q. refl;
  open_kept = λ p h q. refl;
  remove_gone = λ p h q. without_lem p h q;
}

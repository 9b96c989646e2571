-- ===== src/Command/Restore/Sides.antt =====
-- cmd/backwyn/main.go: the id of `restore` stands on either side of the flags.
use backwyn.Prelude.{
  ◌≡◌, ◌≢◌, refl, ap, inl, inr, true, false, Option, none, some, List, [], ◌∷◌, ◌++◌, Result, ok,
  err, Bool-cases, arith, ◌==◌,
}
use backwyn.Prelude.Text.{Text, lit, text_eq, has_prefix}
use backwyn.Restore as Restore
use backwyn.Command.Flags.{
  Values, Flag, operand, tokenize, Next, stop_here, stop_behind, fails, go_on, needs, after_token,
  after_value, after_next, Parsed, parse,
}
use backwyn.Command.Restore.{
  no_options, restore_flags, take_id, choose_id, after_flags, restore_args, wanted,
}

module _ {O : Type 0} (values : Values) where
  after_value-append :
      (f : Flag O) (a : Text) (next next' : O → Parsed O) (r : Result Text O) (o' : O) (id : Text)
      → ((o : O) → next o ≡ ok (o', []) → next' o ≡ ok (o', id ∷ []))
      → after_value values f a next r ≡ ok (o', [])
      → after_value values f a next' r ≡ ok (o', id ∷ [])
  unfolding after_value
  after_value-append f a next next' (err e) o' id h g = absurd (ground arith)
  after_value-append f a next next' (ok o) o' id h g = h o g

  after_next-append :
      (a : Text) (rest : List Text) (o : O) (next next' : O → Parsed O)
      (value value' : Flag O → Parsed O) (n : Next O) (o' : O) (id : Text)
      → ((q : O) → next q ≡ ok (o', []) → next' q ≡ ok (o', id ∷ []))
      → ((f : Flag O) → value f ≡ ok (o', []) → value' f ≡ ok (o', id ∷ []))
      → after_next values a rest o next value n ≡ ok (o', [])
      → after_next values a (rest ++ id ∷ []) o next' value' n ≡ ok (o', id ∷ [])
  unfolding after_next
  after_next-append a rest o next next' value value' stop_here o' id h k g = absurd (ground arith)
  after_next-append a [] o next next' value value' stop_behind o' id h k g =
      let same : o ≡ o' = ground arith in ap (λ q. ok (q, id ∷ [])) same
  after_next-append a (r ∷ rest) o next next' value value' stop_behind o' id h k g =
      absurd (ground arith)
  after_next-append a rest o next next' value value' (fails e) o' id h k g = absurd (ground arith)
  after_next-append a rest o next next' value value' (go_on q) o' id h k g = h q g
  after_next-append a rest o next next' value value' (needs f) o' id h k g = k f g

  -- An operand behind arguments that are all flags is the one operand.
  pub parse-append :
      (flags : List (Flag O)) (pending : Option (Flag O)) (args : List Text) (o o' : O) (id : Text)
      → tokenize id ≡ operand
      → parse values flags pending args o ≡ ok (o', [])
      → parse values flags pending (args ++ id ∷ []) o ≡ ok (o', id ∷ [])
  unfolding parse
  parse-append flags none [] o o' id plain h =
      let same : o ≡ o' = ground arith in rw plain (ap (λ q. ok (q, id ∷ [])) same)
  parse-append flags (some f) [] o o' id plain h = absurd (ground arith)
  parse-append flags (some f) (a ∷ rest) o o' id plain h =
      after_value-append f a (parse values flags none rest)
        (parse values flags none (rest ++ id ∷ [])) (f.set a o) o' id
        (λ q g. parse-append flags none rest q o' id plain g) h
  parse-append flags none (a ∷ rest) o o' id plain h =
      after_next-append a rest o (parse values flags none rest)
        (parse values flags none (rest ++ id ∷ [])) (λ f. parse values flags (some f) rest o)
        (λ f. parse values flags (some f) (rest ++ id ∷ []) o)
        (after_token values flags a o (tokenize a)) o' id
        (λ q g. parse-append flags none rest q o' id plain g)
        (λ f g. parse-append flags (some f) rest o o' id plain g) h

-- The id is not empty and does not look like a flag.
abbrev pub IsPlain : Text → Type 0
IsPlain id = (id ≢ []) × (has_prefix id (lit "-") ≡ false)

IsPlain-operand : (id : Text) → IsPlain id → tokenize id ≡ operand
unfolding tokenize has_prefix lit
IsPlain-operand [] h = refl
IsPlain-operand (c ∷ []) h = refl
IsPlain-operand (c ∷ d ∷ s) h = elim (Bool-cases (c == 45)) [
  | inl dash ↦ absurd (ground arith)
  | inr other ↦ rw other refl
]

-- An argument that flags have consumed looks like one.
flag-prefix :
    {O : Type 0} (values : Values) (flags : List (Flag O)) (a : Text) (rest : List Text) (o o' : O)
    → parse values flags none (a ∷ rest) o ≡ ok (o', [])
    → has_prefix a (lit "-") ≡ true
unfolding parse tokenize has_prefix lit after_next after_token
flag-prefix values flags [] rest o o' h = absurd (ground arith)
flag-prefix values flags (c ∷ []) rest o o' h = absurd (ground arith)
flag-prefix {O = O} values flags (c ∷ d ∷ s) rest o o' h = elim (Bool-cases (c == 45)) [
  | inl dash ↦ rw dash refl
  | inr other ↦
      let stopped : ◌≡◌ {A = Parsed O} (ok (o, (c ∷ d ∷ s) ∷ rest)) (ok (o', [])) =
        (rw other at h) in
      absurd (ground arith)
]

choose-front : (id : Text) → id ≢ [] → choose_id id [] ≡ some id
unfolding choose_id text_eq
choose-front [] h = absurd (h refl)
choose-front (c ∷ s) h = refl

choose-back : (id : Text) → id ≢ [] → choose_id [] (id ∷ []) ≡ some id
unfolding choose_id text_eq
choose-back [] h = absurd (h refl)
choose-back (c ∷ s) h = refl

one_operand :
    (id : Text) (o : Restore.Options) → id ≢ [] → after_flags [] (ok (o, id ∷ [])) ≡ wanted id o
unfolding after_flags
one_operand id o h = rw (after_flags, choose-back id h) refl

module _ (values : Values) where
  id_first :
      (args : List Text) (id : Text) (o : Restore.Options)
      → IsPlain id
      → parse values (restore_flags values) none args no_options ≡ ok (o, [])
      → restore_args values (id ∷ args) ≡ wanted id o
  unfolding restore_args take_id after_flags
  id_first args id o plain h = rw (plain.1, h, choose-front id plain.0) refl

  id_last :
      (args : List Text) (id : Text) (o : Restore.Options)
      → IsPlain id
      → parse values (restore_flags values) none args no_options ≡ ok (o, [])
      → restore_args values (args ++ id ∷ []) ≡ wanted id o
  unfolding restore_args take_id after_flags
  id_last [] id o plain h = id_first [] id o plain h
  id_last (a ∷ args) id o plain h =
      let dash = flag-prefix values (restore_flags values) a args no_options o h in
      let parsed =
        parse-append values (restore_flags values) none (a ∷ args) no_options o id
          (IsPlain-operand id plain) h in
      rw (dash, parsed) (one_operand id o plain.0)

  -- The backup id of `restore` may stand in front of the flags or behind them: when the flags alone
  -- parse, and the id is not empty and does not begin with a dash, both name the same backup with the
  -- same options.
  pub restore_args_lem :
      (args : List Text) (id : Text) (o : Restore.Options)
      → IsPlain id
      → parse values (restore_flags values) none args no_options ≡ ok (o, [])
      → (restore_args values (id ∷ args) ≡ wanted id o)
        × (restore_args values (args ++ id ∷ []) ≡ wanted id o)
  restore_args_lem args id o plain h = (id_first args id o plain h, id_last args id o plain h)

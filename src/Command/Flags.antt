-- ===== src/Command/Flags.antt =====
-- cmd/backwyn/main.go: the command line, as the package `flag` parses it.
use backwyn.Prelude.{
  Bool, true, false, ◌||◌, ◌==◌, Option, none, some, List, [], ◌∷◌, ◌++◌, Result, ok, err,
  if◌then◌else◌,
}
use backwyn.Prelude.Int.{ℤ}
use backwyn.Prelude.Text.{Text, lit, text_eq}

-- What is used of `strconv`, `time` and `fmt` for the values of flags, and `usage`, the text that the
-- package prints for a set of flags.
pub record Values : Type 0 where
  pub quote : Text → Text
  pub parse_bool : Text → Result Text Bool
  pub parse_int : Text → Result Text ℤ
  pub parse_duration : Text → Result Text ℤ
  pub usage : Text → Text

-- The text of `flag.ErrHelp`
abbrev pub help_requested : Text
help_requested = lit "flag: help requested"

-- A flag of a set whose variables are `O`.
pub record Flag (O : Type 0) : Type 0 where
  pub name : Text
  pub is_bool : Bool
  pub set : Text → O → Result Text O

-- `String`, `Bool`, `Int` and `Duration` of a `flag.FlagSet`, each with what stores the value.
unfoldable pub set_as : {A O : Type 0} → Result Text A → (A → O → O) → O → Result Text O
set_as (err e) store o = err e
set_as (ok a) store o = ok (store a o)

module _ {O : Type 0} (values : Values) where
  unfoldable pub string_flag : Text → (Text → O → O) → Flag O
  string_flag name store = record { name = name; is_bool = false; set = λ v o. ok (store v o) }

  unfoldable pub bool_flag : Text → (Bool → O → O) → Flag O
  unfolding set_as
  bool_flag name store = record {
    name = name;
    is_bool = true;
    set = λ v o. set_as (values.parse_bool v) store o;
  }

  unfoldable pub int_flag : Text → (ℤ → O → O) → Flag O
  unfolding set_as
  int_flag name store = record {
    name = name;
    is_bool = false;
    set = λ v o. set_as (values.parse_int v) store o;
  }

  unfoldable pub duration_flag : Text → (ℤ → O → O) → Flag O
  unfolding set_as
  duration_flag name store = record {
    name = name;
    is_bool = false;
    set = λ v o. set_as (values.parse_duration v) store o;
  }

-- How `FlagSet.parseOne` reads an argument.
pub data Token : Type 0 where
  operand : Token
  terminator : Token
  bad_syntax : Token
  named : Text → Option Text → Token

-- A name and the value behind `=`.
unfoldable pub split_value : Text → Text × Option Text
split_value [] = ([], none)
split_value (c ∷ s) =
    let (name, value) = split_value s in if c == 61 then ([], some s) else (c ∷ name, value)

unfoldable pub named_part : Text → Token
unfolding split_value
named_part [] = terminator
named_part (c ∷ s) =
    let (name, value) = split_value (c ∷ s) in
    if c == 45 || c == 61 then bad_syntax else named name value

unfoldable pub tokenize : Text → Token
unfolding named_part
tokenize [] = operand
tokenize (c ∷ []) = operand
tokenize (c ∷ d ∷ s) =
    let token = if d == 45 then named_part s else named_part (d ∷ s) in
    if c == 45 then token else operand

-- What comes of an argument: parsing stops in front of it or behind it, fails, goes on with new
-- variables, or takes the next argument for the flag's value.
pub data Next (O : Type 0) : Type 0 where
  stop_here : Next O
  stop_behind : Next O
  fails : Text → Next O
  go_on : O → Next O
  needs : Flag O → Next O

-- What parsing yields: the variables and the operands.
abbrev pub Parsed : Type 0 → Type 0
Parsed O = Result Text (O × List Text)

module _ {O : Type 0} (values : Values) where
  unfoldable pub find_flag : Text → List (Flag O) → Option (Flag O)
  unfolding text_eq
  find_flag name [] = none
  find_flag name (f ∷ fs) =
      let rest = find_flag name fs in if text_eq f.name name then some f else rest

  -- `fs.failf("invalid value ...")` for a value that is refused.
  unfoldable pub bad_value : Flag O → Text → Text → Text
  bad_value f v e =
      if f.is_bool
      then lit "invalid boolean value "
        ++ (values.quote v ++ (lit " for -" ++ (f.name ++ (lit ": " ++ e))))
      else lit "invalid value "
        ++ (values.quote v ++ (lit " for flag -" ++ (f.name ++ (lit ": " ++ e))))

  unfoldable pub after_set : Text → Result Text O → Next O
  after_set message (err e) = fails message
  after_set message (ok o) = go_on o

  abbrev error_of : Result Text O → Text
  error_of (err e) = e
  error_of (ok o) = []

  unfoldable pub after_find : Text → Option Text → O → Option (Flag O) → Next O
  unfolding bad_value after_set text_eq
  after_find name value o none = fails (
      if text_eq name (lit "help") || text_eq name (lit "h")
      then help_requested
      else lit "flag provided but not defined: -" ++ name)
  after_find name none o (some f) =
      let r = f.set (lit "true") o in
      if f.is_bool
      then after_set (lit "invalid boolean flag " ++ (name ++ (lit ": " ++ error_of r))) r
      else needs f
  after_find name (some v) o (some f) =
      let r = f.set v o in after_set (bad_value f v (error_of r)) r

  unfoldable pub after_token : List (Flag O) → Text → O → Token → Next O
  unfolding after_find find_flag
  after_token flags a o operand = stop_here
  after_token flags a o terminator = stop_behind
  after_token flags a o bad_syntax = fails (lit "bad flag syntax: " ++ a)
  after_token flags a o (named name value) = after_find name value o (find_flag name flags)

  -- What follows a value that was set, or was refused.
  unfoldable pub after_value : Flag O → Text → (O → Parsed O) → Result Text O → Parsed O
  unfolding bad_value
  after_value f a next (err e) = err (bad_value f a e)
  after_value f a next (ok o) = next o

  -- What follows an argument; `next` and `value` parse what is behind it.
  unfoldable pub after_next :
      Text → List Text → O → (O → Parsed O) → (Flag O → Parsed O) → Next O → Parsed O
  after_next a rest o next value stop_here = ok (o, a ∷ rest)
  after_next a rest o next value stop_behind = ok (o, rest)
  after_next a rest o next value (fails e) = err e
  after_next a rest o next value (go_on o') = next o'
  after_next a rest o next value (needs f) = value f

  -- `FlagSet.Parse`: the variables and the operands. A flag that waits for its value is in front.
  unfoldable pub parse : List (Flag O) → Option (Flag O) → List Text → O → Parsed O
  unfolding after_token tokenize after_value after_next
  parse flags none [] o = ok (o, [])
  parse flags (some f) [] o = err (lit "flag needs an argument: -" ++ f.name)
  parse flags (some f) (a ∷ rest) o = after_value f a (parse flags none rest) (f.set a o)
  parse flags none (a ∷ rest) o =
      after_next a rest o (parse flags none rest) (λ f. parse flags (some f) rest o)
        (after_token flags a o (tokenize a))

-- ===== src/Command/Runtime.antt =====
-- cmd/backwyn/main.go: what the program runs on.
use backwyn.Prelude.{ltb, ◌^◌, ◌-◌, if◌then◌else◌, ℕ, Bool, Option, List, [], ◌∷◌, ◌++◌, Result}
use backwyn.Prelude.Text.{Text, lit, text_eq, show_ℤ}
use backwyn.Prelude.Int.{pos, negsuc}
use backwyn.Prelude.Text.Paths.{FilePath}
use backwyn.Time.{Time}
use backwyn.Storage.Files.{Files}
use backwyn.Storage.S3.{Settings, Client}
use backwyn.Manifest.{Json, Int64}
use backwyn.Config.{Environment, ConfigError}
use backwyn.Pgtools.Dsn.{Urls}
use backwyn.Host.{Host}
use backwyn.Crypto.Cipher.{Aead, Random}
use backwyn.Retention.Plan.{Sorter}
use backwyn.Restore.{OpenOutput}
use backwyn.Command.Flags.{Values, help_requested}

-- `os.DirEntry`
pub record Entry : Type 0 where
  pub name : Text
  pub is_dir : Bool

-- The process: the state of the store (files and the S3 service), that of the machine, and what was
-- printed to the standard output and to the standard error.
pub record Process (S H : Type 0) : Type 0 where
  pub store : S
  pub machine : H
  pub printed : Text
  pub warned : Text

-- How a command ends: it returns no error or one, it calls `os.Exit`, it panics, or it has not ended.
pub data Outcome : Type 0 where
  success : Outcome
  failure : Text → Outcome
  exits : ℕ → Outcome
  panics : Text → Outcome
  still_running : Outcome

-- What the program takes from outside the repository. `table` is what `tabwriter` makes of its text,
-- with the error of its `Flush`; `unflushed` is what it has printed without one.
pub record System (S H P : Type 0) : Type 0 where
  pub env : Environment
  pub show_config_error : ConfigError → Text
  pub files : Files S
  pub client : Settings → Client S P
  pub page_bound : Text → S → ℕ
  pub working_dir : FilePath
  pub host : Host H
  pub temp_dir : Text
  pub read_dir : Text → H → Result Text (List Entry)
  pub open_output : OpenOutput H
  pub json : Json
  pub sorter : Sorter
  pub aead : Aead
  pub random : Random
  pub sha256 : Text → Text
  pub quote : Text → Text
  pub urls : Urls
  pub table : Text → Text × Option Text
  pub unflushed : Text → Text
  pub rfc3339 : Time → Text
  pub values : Values

-- `%d` of an `int64`
unfoldable pub show_int64 : Int64 → Text
unfolding show_ℤ
show_int64 n = show_ℤ (if ltb n (2 ^ 63) then pos n else negsuc (2 ^ 64 - n - 1))

module _ {S H : Type 0} where
  -- `fmt.Printf` and `fmt.Println`
  abbrev pub print : Text → Process S H → Process S H
  print t p = record p { printed = p.printed ++ t }

  -- `fmt.Fprintf(os.Stderr, ...)` and `fmt.Fprintln(os.Stderr, ...)`
  abbrev pub print_err : Text → Process S H → Process S H
  print_err t p = record p { warned = p.warned ++ t }

  -- `for _, w := range ws { fmt.Fprintf(os.Stderr, before + "%s\n", w) }`
  unfoldable pub warn_each : Text → List Text → Process S H → Process S H
  warn_each before [] p = p
  warn_each before (w ∷ ws) p = warn_each before ws (print_err (before ++ (w ++ lit "\n")) p)

  -- What `flag` prints when it refuses the arguments of the set `name`: the error, unless help was
  -- asked for, and the usage.
  unfoldable pub refuse_flags : Values → Text → Text → Process S H → Outcome × Process S H
  unfolding text_eq
  refuse_flags values name e p =
      let usage = values.usage name in
      let told = if text_eq e help_requested then usage else e ++ (lit "\n" ++ usage) in
      (failure e, print_err told p)

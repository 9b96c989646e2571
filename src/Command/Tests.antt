-- ===== src/Command/Tests.antt =====
-- cmd/backwyn/main.go: runs with a store in memory, on a machine without any program.
use backwyn.Prelude.{
  ◌≡◌, ◌⊎◌, refl, true, false, none, some, [], ◌∷◌, ◌++◌, if◌then◌else◌, Result, ok, err, arith,
}
use backwyn.Prelude.Int.{pos}
use backwyn.Prelude.Text.{Text, lit, has_prefix, text_eq}
use backwyn.Storage.Files.{Files}
use backwyn.Storage.S3.{Client}
use backwyn.Storage.Memory.{Memory, memory, memory-IsStore, contents}
use backwyn.Config.{Config, from_env}
use backwyn.Host.{Host}
use backwyn.Crypto.Stream.{endless}
use backwyn.Crypto.Tag.{tag_cipher, fixed_draws}
use backwyn.Artifact.Load.{load_all, load_keys}
use backwyn.Storage.Memory.Assoc.{keys}
use backwyn.Check.{evaluate}
use backwyn.Retention.Plan.{first_verified}
use backwyn.Retention.Sort.{by_insertion, by_insertion-IsSorter}
use backwyn.Runner.Cycle.{Times}
use backwyn.Check.Healthy.{IsCovered}
use backwyn.Command.{Moments, main}
use backwyn.Command.Flags.{Values}
use backwyn.Command.Runtime.{System, Process, success, exits}
use backwyn.Command.Prune.{prune_defaults, run_prune}
use backwyn.Command.Prune.DryRun.{run_prune-dry_run}
use backwyn.Command.Check.{run_check}
use backwyn.Command.Monitored.{Found, main-check}
use backwyn.Command.Restore.{wanted, no_options, restore_args}
use backwyn.Command.Restore.Sides.{restore_args_lem}
use backwyn.Command.Daemon.{
  started, shutting_down, done, daemon_defaults, deps_of, launched, run_daemon,
}
use backwyn.Command.Daemon.Persistent.{ticks, worlds, errors, run_daemon_lem}

abbrev no_access : {A S : Type 0} → S → Result Text A × S
no_access s = (err (lit "refused"), s)

unfoldable no_files : Files Memory
no_files = record {
  mkdir_all = λ d s. no_access s;
  create_temp = λ d p s. no_access s;
  copy = λ t r s. no_access s;
  close = λ t s. no_access s;
  rename = λ t d s. no_access s;
  open_file = λ p s. no_access s;
  walk = λ d s. ([], s);
  remove = λ p s. (err (record { message = []; is_missing = true }), s);
  stat = λ p s. no_access s;
}

unfoldable no_client : Client Memory (Unit {0})
no_client = record {
  upload = λ b k r s. no_access s;
  get_object = λ b k s. no_access s;
  paginator = λ b p. tt;
  has_more_pages = λ p. false;
  next_page = λ p s. no_access s;
  delete_object = λ b k s. no_access s;
  head_object = λ b k s. no_access s;
}

unfoldable bare : Host (Unit {0})
bare = record {
  look_path = λ b h. some (lit "not found");
  exec = λ bin args h. (record { stdout = []; stderr = []; failure = some [] }, h);
  create_temp = λ p h. no_access h;
  writer = λ p h. endless [];
  filled = λ p s h. h;
  close = λ p h. (ok tt, h);
  open_file = λ p h. no_access h;
  remove = λ p h. h;
}

unfoldable values : Values
values = record {
  quote = λ s. s;
  parse_bool = λ s. ok true;
  parse_int = λ s. ok (pos 1);
  parse_duration = λ s. ok (pos 1);
  usage = λ name. [];
}

unfoldable sys : System Memory (Unit {0}) (Unit {0})
sys = record {
  env = λ v. [];
  show_config_error = λ e. lit "config";
  files = no_files;
  client = λ o. no_client;
  page_bound = λ p s. 0;
  working_dir = [];
  host = bare;
  temp_dir = lit "/tmp";
  read_dir = λ d h. ok [];
  open_output = λ f p h. (err (false, lit "refused"), h);
  json = record { encode = λ m. m.id; decode_json = λ r. err (lit "not a manifest") };
  sorter = by_insertion;
  aead = tag_cipher;
  random = fixed_draws;
  sha256 = λ s. s;
  quote = λ s. s;
  urls = record { parse_url = λ dsn. err (lit "no URL"); equal_fold = text_eq };
  table = λ t. (t, none);
  unflushed = λ t. [];
  rfc3339 = λ t. [];
  values = values;
}

abbrev empty : Process Memory (Unit {0})
empty = record {
  store = record { objects = []; faults = [] };
  machine = tt;
  printed = [];
  warned = [];
}

abbrev times : Times
times = record { backup_at = 1; backup_took = pos 1; verify_at = 2; check_at = 3 }

abbrev moments : Moments
moments = record { now = 5; took = pos 1; times = times; wakes = [] }

main_without_arguments : (main sys [] moments empty).0 ≡ some 2
unfolding main
main_without_arguments = refl

main_help : (main sys (lit "help" ∷ []) moments empty).0 ≡ some 0
unfolding main lit
main_help = refl

check_runs : (run_check sys memory [] 5 empty).0 ≡ exits 3
unfolding run_check load_all memory load_keys keys evaluate first_verified sys by_insertion
check_runs = refl

-- A configuration for a bucket in which nothing is.
unfoldable bucket_env : Text → Text
unfolding text_eq
bucket_env v =
    if text_eq v (lit "BACKWYN_STORAGE")
    then lit "s3"
    else if text_eq v (lit "BACKWYN_ENCRYPTION_KEY")
    then lit "AAAAAAAAAAAAAAAAAAAAAAAAAAAAAAAAAAAAAAAAAAA="
    else lit "x"

abbrev in_bucket : System Memory (Unit {0}) (Unit {0})
in_bucket = record sys { env = bucket_env }

main_check : (main in_bucket (lit "check" ∷ []) moments empty).0 ≡ some 3
unfolding main lit bucket_env sys no_client load_keys evaluate first_verified by_insertion
main_check = refl

main-check_example :
    let code = (main in_bucket (lit "check" ∷ []) moments empty).0 in
    (code ≡ some 0
      → Found in_bucket [] empty.store (λ ms max_age. IsCovered ms max_age moments.now))
    × (code ≡ some 3
        → Found in_bucket [] empty.store (λ ms max_age. ¬ IsCovered ms max_age moments.now))
    × ((code ≡ some 0) ⊎ ((code ≡ some 1) ⊎ (code ≡ some 3)))
unfolding sys
main-check_example = main-check in_bucket [] moments empty by_insertion-IsSorter

-- A second operand behind an id in front is not refused.
stray_operand :
    restore_args values (lit "b" ∷ lit "-force" ∷ lit "c" ∷ [])
    ≡ wanted (lit "b") (record no_options { force = true })
unfolding restore_args lit values
stray_operand = refl

restore_args_lem_example :
    (restore_args values (lit "b" ∷ lit "-to" ∷ lit "x" ∷ [])
      ≡ wanted (lit "b") (record no_options { target_dsn = lit "x" }))
    × (restore_args values ((lit "-to" ∷ lit "x" ∷ []) ++ lit "b" ∷ [])
        ≡ wanted (lit "b") (record no_options { target_dsn = lit "x" }))
unfolding restore_args lit values has_prefix
restore_args_lem_example =
    restore_args_lem values (lit "-to" ∷ lit "x" ∷ []) (lit "b")
      (record no_options { target_dsn = lit "x" }) (λ h. absurd (ground arith), refl) refl

run_prune-dry_run_example :
    contents (run_prune sys memory (lit "-dry-run" ∷ []) 5 empty).1.store (lit "k")
    ≡ contents empty.store (lit "k")
unfolding run_prune sys lit values
run_prune-dry_run_example =
    run_prune-dry_run sys memory contents (lit "-dry-run" ∷ []) 5 empty
      (record prune_defaults { dry_run = true }) [] (lit "k") memory-IsStore refl refl

abbrev cfg : Config
cfg = from_env (λ v. [])

run_daemon_lem_example :
    let x =
      run_daemon sys memory cfg [] times 5
        (ticks ((times, 9) ∷ []) ++ done (lit "stop") ∷ [])
        empty.store
        tt in
    let o = daemon_defaults sys.env in
    let d = deps_of sys memory cfg o in
    let w = (launched sys memory o empty.store tt).world in
    (x.0 ≡ success)
    × (x.1.world ≡ worlds d ((times, 5) ∷ (times, 9) ∷ []) w)
    × (x.1.log
        ≡ started o.interval o.max_age
          ∷ (errors d ((times, 5) ∷ (times, 9) ∷ []) w ++ shutting_down (lit "stop") ∷ []))
    × (x.1.serves ≡ (launched sys memory o empty.store tt).serves)
unfolding run_daemon sys
run_daemon_lem_example =
    run_daemon_lem sys memory cfg [] times 5 ((times, 9) ∷ []) (lit "stop") [] empty.store tt
      (daemon_defaults sys.env) [] refl refl refl

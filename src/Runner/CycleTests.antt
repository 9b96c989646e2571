-- ===== src/Runner/CycleTests.antt =====
-- internal/runner/runner.go: a cycle on which everything works, and one whose first `Put` fails.
use backwyn.Prelude.{
  arith, ◌⊎◌, ◌++◌, err, ◌*◌, ◌≡◌, refl, none, some, List, [], ◌∷◌, ok, Bool, true, if◌then◌else◌,
}
use backwyn.Prelude.Int.{pos}
use backwyn.Prelude.Text.{Text, lit, text_eq}
use backwyn.Time.{Time, day, sub}
use backwyn.Time.Stamp.{format_stamp}
use backwyn.Storage.Memory.{Memory, memory, memory-IsStore, contents}
use backwyn.Manifest.{Manifest, Json, no_verification, manifest_key, artifact_key_of, decode}
use backwyn.Config.{from_env}
use backwyn.Host.{Host}
use backwyn.Crypto.Stream.{endless, read_full, put_uint32, uint32}
use backwyn.Crypto.Tag.{tag_cipher, key32, fixed_draws}
use backwyn.Artifact.Load.{load_all, load_keys, load_key}
use backwyn.Storage.Memory.Assoc.{keys, find, insert}
use backwyn.Check.{evaluate}
use backwyn.Retention.Plan.{first_verified}
use backwyn.Crypto.Cipher.{decrypt, read_then, magic_bytes}
use backwyn.Artifact.Materialize.{hex}
use backwyn.Retention.Sort.{by_insertion, by_insertion-IsSorter}
use backwyn.Check.Healthy.{IsCovered}
use backwyn.Host.Shelf.{shelf, on_shelf, shelf-IsHost}
use backwyn.Runner.Status.{new_tracker}
use backwyn.Runner.Answered.{Answers, cycle-Answers}
use backwyn.Runner.Swept.{temps-cycle}
use backwyn.Runner.Cycle.{World, Times, Deps, cycle, backup_and_verify}
use backwyn.Check as Check
use backwyn.Runner.Alerted.{Raised, cycle-Raised}
use backwyn.Runner.Pruning.{cycle_err-view, cycle-none-IsCovered}

abbrev content : Text
content = 104 ∷ 105 ∷ []

-- Every program works and prints a 3; the dump is `content`.
unfoldable working : Host (Unit {0})
working = record {
  look_path = λ b h. none;
  exec = λ bin args h. (record { stdout = 51 ∷ 10 ∷ []; stderr = []; failure = none }, h);
  create_temp = λ p h. (ok (47 ∷ []), h);
  writer = λ p h. endless [];
  filled = λ p s h. h;
  close = λ p h. (ok tt, h);
  open_file = λ p h. (ok (record { bytes = content; fault = none }), h);
  remove = λ p h. h;
}

abbrev now : Time
now = 740_001 * day

abbrev made : Bool → Manifest
made verified = record {
  schema_version = pos 1;
  id = format_stamp now;
  created_at = now;
  source_label = [];
  artifact_key = artifact_key_of (format_stamp now);
  format = lit "custom";
  pg_dump_version = 51 ∷ [];
  plaintext_size = 2;
  encrypted_size = 42;
  plaintext_sha256 = hex content;
  verification = record no_verification { verified = verified };
}

-- A code for the two manifests of the example.
unfoldable two_json : Json
two_json = record {
  encode = λ m. if m.verification.verified then 49 ∷ [] else 48 ∷ [];
  decode_json = λ r. ok (made (text_eq r.bytes (49 ∷ [])));
}

abbrev same : Text → Text
same s = s

abbrev deps : Deps Memory (Unit {0})
deps = record {
  cfg = record (from_env (λ v. [])) { encryption_key = key32; verify_admin_dsn = 120 ∷ [] };
  backend = memory;
  host = working;
  max_age = pos 1_000;
  retention = record {
    keep_last = pos 1;
    keep_daily = pos 0;
    keep_weekly = pos 0;
    keep_monthly = pos 0;
  };
  sorter = by_insertion;
  json = two_json;
  aead = tag_cipher;
  random = fixed_draws;
  sha256 = same;
  quote = same;
  urls = record {
    parse_url = λ dsn. ok (record { host = dsn; path = []; with_path = λ p. p });
    equal_fold = text_eq;
  };
}

abbrev times : Times
times = record { backup_at = now; backup_took = pos 1; verify_at = now; check_at = now }

abbrev world : List Bool → World Memory (Unit {0})
world faults = record {
  store = record { objects = []; faults = faults };
  machine = tt;
  tracker = none;
  alerts = [];
}

cycle_fails :
    (cycle deps times now (world (true ∷ []))).0
    ≡ some (lit "backup: store encrypted artifact: unavailable")
unfolding cycle working two_json memory from_env lit load_keys keys evaluate first_verified
    by_insertion
cycle_fails = refl

cycle_works : (cycle deps times now (world [])).0 ≡ none
unfolding cycle working two_json memory tag_cipher from_env lit read_full find insert manifest_key
    decode artifact_key_of decrypt read_then magic_bytes put_uint32 uint32 load_keys keys load_key
    evaluate first_verified by_insertion text_eq hex sub
cycle_works = refl

cycle_err-view_example :
    contents (cycle deps times now (world (true ∷ []))).1.store (lit "manifests/a")
    ≡ contents (backup_and_verify deps times now (world (true ∷ []))).1.store (lit "manifests/a")
cycle_err-view_example =
    cycle_err-view deps times now contents (world (true ∷ []))
      (lit "backup: store encrypted artifact: unavailable") (lit "manifests/a") memory-IsStore
      cycle_fails

cycle-Raised_example :
    let w = world (true ∷ []) in
    let y = backup_and_verify deps times now w in
    Raised w.alerts (cycle deps times now w).1.alerts
    ⊎ ((y.0 ≡ none)
        × ((c : Text) × ((Check.run memory two_json by_insertion (pos 1_000) now y.1.store).0
              ≡ err c)
            × (lit "backup: store encrypted artifact: unavailable" ≡ lit "check: " ++ c)))
cycle-Raised_example =
    cycle-Raised deps times now (world (true ∷ []))
      (lit "backup: store encrypted artifact: unavailable") cycle_fails

cycle-none-IsCovered_example :
    ((backup_and_verify deps times now (world [])).0 ≡ none)
    × ((ms : List Manifest) × ((load_all memory two_json
            (backup_and_verify deps times now (world [])).1.store).0
          ≡ ok ms)
        × IsCovered ms (pos 1_000) now)
cycle-none-IsCovered_example =
    cycle-none-IsCovered deps times now (world []) by_insertion-IsSorter cycle_works

-- The same on a machine with temporary files.
abbrev shelved : Deps Memory (List Text)
shelved = record {
  cfg = record (from_env (λ v. [])) { encryption_key = key32; verify_admin_dsn = 120 ∷ [] };
  backend = memory;
  host = shelf (51 ∷ 10 ∷ []) content;
  max_age = pos 1_000;
  retention = deps.retention;
  sorter = by_insertion;
  json = two_json;
  aead = tag_cipher;
  random = fixed_draws;
  sha256 = same;
  quote = same;
  urls = deps.urls;
}

abbrev shelf_world : World Memory (List Text)
shelf_world = record {
  store = record { objects = []; faults = [] };
  machine = lit "notes" ∷ [];
  tracker = none;
  alerts = [];
}

temps-cycle_example :
    on_shelf (cycle shelved times now shelf_world).1.machine (lit "backwyn-toc-*.list")
    ≡ on_shelf shelf_world.machine (lit "backwyn-toc-*.list")
temps-cycle_example =
    temps-cycle shelved times now on_shelf shelf_world (lit "backwyn-toc-*.list")
      (shelf-IsHost (51 ∷ 10 ∷ []) content)

-- With a tracker.
abbrev tracked_world : World Memory (Unit {0})
tracked_world = record (world []) { tracker = some new_tracker }

abbrev report : Check.Report
unfolding evaluate
report = evaluate (made true ∷ []) (pos 1_000) now

reads_report :
    (Check.run memory two_json by_insertion
      (pos 1_000)
      now
      (backup_and_verify deps times now tracked_world).1.store).0
    ≡ ok report
unfolding cycle working two_json memory tag_cipher from_env lit read_full find insert manifest_key
    decode artifact_key_of decrypt read_then magic_bytes put_uint32 uint32 load_keys keys load_key
    evaluate first_verified by_insertion text_eq hex sub new_tracker
reads_report = refl

cycle-Answers_example :
    (ms : List Manifest) × ((load_all memory two_json
        (backup_and_verify deps times now tracked_world).1.store).0
      ≡ ok ms)
    × Answers (cycle deps times now tracked_world).1 (IsCovered ms (pos 1_000) now)
cycle-Answers_example =
    cycle-Answers deps times now tracked_world new_tracker report by_insertion-IsSorter
      (λ e. absurd (omega (arith, e))) refl reads_report

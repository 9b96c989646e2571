-- ===== src/Retention/Tests.antt =====
-- Runs of the pruning on a few backups, and each theorem at a concrete input.
use mathlib.Core.List.{Mem, Perm, mem-cons_self, mem-cons_of_mem}
use mathlib.Core.Path.{subst}
use backwyn.Prelude.{
  ℕ, ◌+◌, ◌*◌, ◌%◌, ◌^◌, ◌≡◌, ◌↔◌, refl, sym, ap, Bool, true, false, none, List, [], ◌∷◌, ◌++◌, All,
  arith, inl, inr, ◌⊎◌,
}
use Prim.Native.String.{String}
use backwyn.Prelude.Int.{pos}
use backwyn.Prelude.Text.{show_ℤ, show_ℕ, pad2, Text, lit, text_eq, text_eq_iff, has_suffix}
use backwyn.Time.{day}
use backwyn.Time.Stamp.{parse_stamp}
use backwyn.Time.Calendar.{format_day, format_month, iso_week}
use backwyn.Manifest.{Manifest, no_verification, manifest_key, artifact_key_of}
use backwyn.Storage.Memory.{Memory, memory, memory-IsStore, contents}
use backwyn.Manifest.Keys.{manifest_key-injective, manifest_key-ne-artifact_key_of}
use backwyn.Storage.Memory.Assoc.{Objects, find, without}
use backwyn.Retention.Policy.{Policy, Plan, is_zero, remove, kept}
use backwyn.Retention.Plan.{compute, first_verified, decide, reasons_of}
use backwyn.Retention.Slots.{slot_loop, fill_slots, slot_step, last_step, iso_week_label, keep}
use backwyn.Retention.Apply.{apply, apply_loop, apply_one}
use backwyn.Retention.Sweep.{sweep_orphans, artifact_id}
use backwyn.Retention.Sort.{by_insertion, by_insertion-IsSorter}
use backwyn.Retention.Guards.{
  IsGuarded, IsNewest, compute-IsGuarded, compute_partition, compute_keeps_coverage,
}
use backwyn.Retention.Spec.{in_policy}
use backwyn.Retention.Exact.{compute_removes_exactly}
use backwyn.Retention.Complete.{IsComplete, IsKeyed, apply-IsComplete}
use backwyn.Retention.Spared.{sweep_orphans-IsComplete, sweep_orphans_spares}
use backwyn.Retention.Deleted.{apply_deletes, sum_sizes}

-- A backup of 100 bytes that was taken `days` days after 2026-01-01.
abbrev taken : String → ℕ → Bool → Manifest
taken id days verified = record {
  schema_version = pos 1;
  id = lit id;
  created_at = (740_001 + days) * day;
  source_label = lit "host/db";
  artifact_key = artifact_key_of (lit id);
  format = lit "custom";
  pg_dump_version = lit "pg_dump 17";
  plaintext_size = 10;
  encrypted_size = 100;
  plaintext_sha256 = [];
  verification = record no_verification { verified = verified };
}

abbrev first : Manifest
first = taken "20260101T000000Z" 0 true

abbrev second : Manifest
second = taken "20260102T000000Z" 1 true

abbrev third : Manifest
third = taken "20260103T000000Z" 2 false

abbrev fourth : Manifest
fourth = taken "20260104T000000Z" 3 false

abbrev backups : List Manifest
backups = second ∷ first ∷ fourth ∷ third ∷ []

abbrev one_day : Policy
one_day = record {
  keep_last = pos 0;
  keep_daily = pos 1;
  keep_weekly = pos 0;
  keep_monthly = pos 0;
}

abbrev plan : Plan
plan = compute by_insertion backups one_day

-- The newest backup and the one daily slot are kept.
plan-removes : remove plan ≡ third ∷ first ∷ []
unfolding compute remove by_insertion is_zero first_verified decide reasons_of slot_loop fill_slots
    slot_step last_step keep lit text_eq show_ℤ show_ℕ format_day format_month iso_week_label
    iso_week pad2
plan-removes = refl

first_is_removed : Mem first (remove plan)
first_is_removed =
    subst (λ ms. Mem first ms) (sym plan-removes) (mem-cons_of_mem third mem-cons_self)

plan-keeps : kept plan ≡ fourth ∷ second ∷ []
unfolding compute kept by_insertion is_zero first_verified decide reasons_of slot_loop fill_slots
    slot_step last_step keep lit text_eq show_ℤ show_ℕ format_day format_month iso_week_label
    iso_week pad2
plan-keeps = refl

fourth_is_kept : Mem fourth (kept plan)
fourth_is_kept = subst (λ ms. Mem fourth ms) (sym plan-keeps) mem-cons_self

compute-IsGuarded_example : IsGuarded backups plan
compute-IsGuarded_example =
    compute-IsGuarded by_insertion backups one_day first by_insertion-IsSorter first_is_removed

compute_partition_example : Perm (kept plan ++ remove plan) backups
compute_partition_example = compute_partition by_insertion backups one_day by_insertion-IsSorter

compute_keeps_coverage_example :
    (m : Manifest) × Mem m backups
    × (m.id ≡ fourth.id)
    × ((m.verification.verified ≡ true) ⊎ IsNewest m backups)
compute_keeps_coverage_example =
    compute_keeps_coverage by_insertion backups one_day first fourth by_insertion-IsSorter
      first_is_removed fourth_is_kept

compute_removes_exactly_example : Mem first (remove plan) ↔ (
    Mem first (by_insertion.sort backups)
    × (text_eq fourth.id first.id ≡ false)
    × (text_eq second.id first.id ≡ false)
    × (in_policy one_day first.id (by_insertion.sort backups) ≡ false))
unfolding by_insertion is_zero first_verified
compute_removes_exactly_example =
    compute_removes_exactly by_insertion backups one_day fourth second (third ∷ second ∷ first ∷ [])
      first refl refl refl

add_backup-IsComplete :
    (id a m : Text) (o : Objects)
    → IsComplete (λ k. find k o)
    → IsComplete (λ k. find k ((manifest_key id, m) ∷ (artifact_key_of id, a) ∷ o))
unfolding find
add_backup-IsComplete id a m o h j none_there = ground (
  arith,
  h j,
  text_eq_iff (manifest_key id) (artifact_key_of j),
  text_eq_iff (artifact_key_of id) (artifact_key_of j),
  text_eq_iff (manifest_key id) (manifest_key j),
  text_eq_iff (artifact_key_of id) (manifest_key j),
  manifest_key-ne-artifact_key_of id j,
  manifest_key-ne-artifact_key_of j id,
  manifest_key-injective id j,
  ap artifact_key_of {x = id} {y = j},
)

-- The store with the two backups that the plan removes, and one that it keeps.
abbrev newest_object : Objects
newest_object = (manifest_key second.id, lit "m2") ∷ (artifact_key_of second.id, lit "a2") ∷ []

abbrev two_objects : Objects
two_objects =
    (manifest_key first.id, lit "m1") ∷ (artifact_key_of first.id, lit "a1") ∷ newest_object

abbrev objects : Objects
objects = (manifest_key third.id, lit "m3") ∷ (artifact_key_of third.id, lit "a3") ∷ two_objects

objects-IsComplete : IsComplete (λ k. find k objects)
unfolding find
objects-IsComplete = add_backup-IsComplete third.id (lit "a3") (lit "m3") two_objects (
    add_backup-IsComplete first.id (lit "a1") (lit "m1") newest_object
      (add_backup-IsComplete second.id (lit "a2") (lit "m2") [] (λ j _. refl)))

-- The store whose second call fails: the first artifact stays behind.
abbrev failing : Memory
failing = record { objects = objects; faults = false ∷ true ∷ [] }

abbrev sound : Memory
sound = record { objects = objects; faults = [] }

plan-IsKeyed : All IsKeyed (remove plan)
plan-IsKeyed = subst (All IsKeyed) (sym plan-removes) (refl, (refl, tt))

apply-IsComplete_example : IsComplete (contents (apply memory plan failing).1)
apply-IsComplete_example =
    apply-IsComplete memory contents memory-IsStore plan failing plan-IsKeyed objects-IsComplete

sweep_orphans-IsComplete_example :
    IsComplete (contents (sweep_orphans memory (pos 5) (800_000 * day) failing).1)
sweep_orphans-IsComplete_example =
    sweep_orphans-IsComplete memory contents memory-IsStore (pos 5) (800_000 * day) failing
      objects-IsComplete

notes_no_stamp : parse_stamp (artifact_id (lit "artifacts/notes.txt")) ≡ none
unfolding parse_stamp artifact_id lit has_suffix
notes_no_stamp = refl

sweep_orphans_spares_example :
    contents (sweep_orphans memory (pos 5) (800_000 * day) failing).1 (lit "artifacts/notes.txt")
    ≡ contents failing (lit "artifacts/notes.txt")
sweep_orphans_spares_example =
    sweep_orphans_spares memory contents memory-IsStore (pos 5) (800_000 * day) failing
      (lit "artifacts/notes.txt") (inr (inr (inl notes_no_stamp)))

sound_is_clean : (apply memory plan sound).0.1 ≡ none
unfolding apply apply_loop apply_one memory find without lit text_eq
sound_is_clean = rw plan-removes

apply_deletes_example :
    ((apply memory plan sound).0.0 ≡ sum_sizes (remove plan) % 2 ^ 64)
    × All
        (λ (m : Manifest).
          (contents (apply memory plan sound).1 (manifest_key m.id) ≡ none)
          × (contents (apply memory plan sound).1 m.artifact_key ≡ none))
        (remove plan)
apply_deletes_example = apply_deletes memory contents memory-IsStore plan sound sound_is_clean

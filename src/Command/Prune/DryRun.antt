-- ===== src/Command/Prune/DryRun.antt =====
-- cmd/backwyn/main.go: `prune -dry-run` deletes nothing.
use backwyn.Prelude.{◌≡◌, refl, ap, ◌∙◌, true, Option, none, some, List, [], ◌∷◌, Result, ok, err}
use backwyn.Prelude.Text.{Text, lit}
use backwyn.Time.{Time}
use backwyn.Storage.{Backend, IsStore}
use backwyn.Manifest.{Manifest}
use backwyn.Artifact.Load.{load_all}
use backwyn.Artifact.Reads.{load_all-view}
use backwyn.Retention.Policy.{Plan}
use backwyn.Command.Flags.{parse}
use backwyn.Command.Runtime.{System, Process, warn_each}
use backwyn.Command.Prune.{
  PruneFlags, prune_flags, prune_defaults, carry_out, after_table, after_load_all, after_parse,
  run_prune,
}

module _ {S H P : Type 0} (sys : System S H P) (b : Backend S) where
  warn_each-store :
      (before : Text) (ws : List Text) (p : Process S H) → (warn_each before ws p).store ≡ p.store
  unfolding warn_each
  warn_each-store before [] p = refl
  warn_each-store before (w ∷ ws) p = warn_each-store before ws _

  after_table-store :
      (o : PruneFlags) (now : Time) (plan : Plan) (t : Text × Option Text) (p : Process S H)
      → o.dry_run ≡ true
      → (after_table sys b o now plan t p).1.store ≡ p.store
  unfolding after_table carry_out
  after_table-store o now plan (text, some e) p dry = refl
  after_table-store o now plan (text, none) p dry =
      rw dry (warn_each-store (lit "WARNING: ") plan.warnings _)

  after_load_all-store :
      (o : PruneFlags) (now : Time) (x : Result Text (List Manifest) × S) (p : Process S H)
      → o.dry_run ≡ true
      → (after_load_all sys b o now x p).1.store ≡ x.1
  unfolding after_load_all
  after_load_all-store o now (err e, s) p dry = refl
  after_load_all-store o now (ok ms, s) p dry = after_table-store o now _ _ _ dry

  -- When the arguments of `prune` parse and -dry-run is among them, it changes no object of the store.
  pub run_prune-dry_run :
      (view : S → Text → Option Text) (args : List Text) (now : Time) (p : Process S H)
      (o : PruneFlags) (operands : List Text) (k : Text)
      → IsStore b view
      → parse sys.values (prune_flags sys.values) none args prune_defaults ≡ ok (o, operands)
      → o.dry_run ≡ true
      → view (run_prune sys b args now p).1.store k ≡ view p.store k
  unfolding run_prune after_parse
  run_prune-dry_run view args now p o operands k st parsed dry = rw parsed (
      ap (λ s. view s k) (after_load_all-store o now (load_all b sys.json p.store) p dry)
      ∙ load_all-view b sys.json view st p.store k)

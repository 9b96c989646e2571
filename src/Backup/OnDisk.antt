-- ===== src/Backup/OnDisk.antt =====
-- internal/backup/backup.go over `storage.Local`: a backup into a directory.
use mathlib.Core.Path.{fun_ext, subst}
use backwyn.Prelude.{
  ◌≡◌, refl, sym, ap, ◌∙◌, ◌/◌, ◌%◌, ◌+◌, Bool, true, ℕ, Option, none, [], ◌∷◌, ◌++◌, Result, ok,
  err, arith,
}
use backwyn.Prelude.Text.{Text, lit, join, pad4, pad2, has_prefix, text_eq}
use backwyn.Prelude.Text.Split.{split}
use backwyn.Prelude.Text.Paths.{FilePath, all, without_slash}
use backwyn.Prelude.Effect.{after, reworded, pure}
use backwyn.Time.{Time}
use backwyn.Time.Stamp.{format_stamp}
use backwyn.Time.Calendar.{date_of_day, day_number}
use backwyn.Storage.{Reader, Backend}
use backwyn.Storage.Files.{Files, IsFiles}
use backwyn.Storage.Local.{local}
use backwyn.Storage.Local.Keys.{IsKey, is_object, split-join}
use backwyn.Storage.Local.Contract.{view_of, local-IsStoreOn}
use backwyn.Storage.Confined.{confined, within, confined-IsStore}
use backwyn.Manifest.{Manifest, Json, manifest_key, artifact_key_of}
use backwyn.Config.{Config}
use backwyn.Host.{Host}
use backwyn.Crypto.Cipher.{Aead, Random, encrypt}
use backwyn.Crypto.Stream.{endless}
use backwyn.Pgtools.Dsn.{Urls}
use backwyn.Retention.Complete.{IsComplete}
use backwyn.Backup.{
  Dumped, piped, manifest_of, store_manifest, store_backup, prepare, after_prepare, run,
}
use backwyn.Backup.Stored.{run-IsComplete}

-- A folder and a name are a key, when the name is one of an object.
join-IsKey :
    (folder name : Text)
    → without_slash folder ≡ true
    → is_object folder ≡ true
    → without_slash name ≡ true
    → is_object name ≡ true
    → IsKey (join (folder ∷ name ∷ []) (lit "/"))
join-IsKey folder name hf gf hn gn =
    rw (split-join folder (name ∷ []) (ground (arith, hf, hn))) (ground (arith, gf, gn))

digit_first : (n : ℕ) (s : Text) → without_slash s ≡ true → without_slash ((n + 48) ∷ s) ≡ true
digit_first n s h = ground arith

pad2_first : (n : ℕ) (s : Text) → without_slash s ≡ true → without_slash (pad2 n ++ s) ≡ true
unfolding pad2
pad2_first n s h = digit_first (n / 10) ((n % 10 + 48) ∷ s) (digit_first (n % 10) s h)

pad4_first : (n : ℕ) (s : Text) → without_slash s ≡ true → without_slash (pad4 n ++ s) ≡ true
unfolding pad4 pad2
pad4_first n s h = pad2_first (n / 100) (pad2 (n % 100) ++ s) (pad2_first (n % 100) s h)

stamp_without_slash :
    (t : Time) (s : Text) → without_slash s ≡ true → without_slash (format_stamp t ++ s) ≡ true
unfolding format_stamp pad4 pad2 lit
stamp_without_slash t s h =
    let sec = t / 1_000_000_000 % 86_400 in
    let d = date_of_day (day_number t) in
    let seconds = pad2 (sec % 60) ++ 90 ∷ s in
    let minutes = pad2 (sec / 60 % 60) ++ seconds in
    let hours = pad2 (sec / 3_600) ++ minutes in
    let days = pad2 d.day ++ 84 ∷ hours in
    let months = pad2 d.month ++ days in
    let clock : without_slash hours ≡ true =
      pad2_first (sec / 3_600) minutes (
        pad2_first (sec / 60 % 60) seconds (pad2_first (sec % 60) (90 ∷ s) (digit_first 42 s h))) in
    pad4_first d.year months
      (pad2_first d.month days (pad2_first d.day (84 ∷ hours) (digit_first 36 hours clock)))

stamp_is_object : (t : Time) (s : Text) → is_object (format_stamp t ++ s) ≡ true
unfolding format_stamp pad4 pad2 lit text_eq has_prefix
stamp_is_object t s = ground arith

-- The keys that `backup.Run` writes stand for one file each.
manifest_key-IsKey : (t : Time) → IsKey (manifest_key (format_stamp t))
unfolding manifest_key lit join text_eq has_prefix
manifest_key-IsKey t =
    join-IsKey (lit "manifests") (format_stamp t ++ lit ".manifest.json") refl refl
      (stamp_without_slash t (lit ".manifest.json") refl) (stamp_is_object t (lit ".manifest.json"))

artifact_key_of-IsKey : (t : Time) → IsKey (artifact_key_of (format_stamp t))
unfolding artifact_key_of lit join text_eq has_prefix
artifact_key_of-IsKey t =
    join-IsKey (lit "artifacts") (format_stamp t ++ lit ".dump.enc") refl refl
      (stamp_without_slash t (lit ".dump.enc") refl) (stamp_is_object t (lit ".dump.enc"))

abbrev pub is_key : Text → Bool
is_key k = all is_object (split k 47)

confined-put :
    {S : Type 0} (b : Backend S) (k : Text) (r : Reader) (s : S)
    → IsKey k
    → (confined is_key b).put k r s ≡ b.put k r s
unfolding confined
confined-put b k r s h = rw h refl

module _ {S : Type 0} (b : Backend S) (j : Json) (a : Aead) (random : Random) (sha256 : Text → Text)
    (urls : Urls) where
  -- A backup uses no other keys, so that it runs on the confined store as on the store itself.
  store_manifest-confined :
      (m : Manifest) (t : Time) (s : S)
      → m.id ≡ format_stamp t
      → store_manifest (confined is_key b) j a random sha256 urls m s
        ≡ store_manifest b j a random sha256 urls m s
  unfolding store_manifest
  store_manifest-confined m t s h =
      let key : IsKey (manifest_key m.id) =
        subst (λ i. IsKey (manifest_key i)) (sym h) (manifest_key-IsKey t) in
      ap (λ x. after (reworded (λ e. lit "store manifest: " ++ e) x) (λ _. pure m))
        (confined-put b (manifest_key m.id) (record { bytes = j.encode m; fault = none }) s key)

  store_backup-confined :
      (cfg : Config) (now : Time) (d : Dumped) (s : S)
      → store_backup (confined is_key b) j a random sha256 urls cfg now d s
        ≡ store_backup b j a random sha256 urls cfg now d s
  unfolding store_backup manifest_of
  store_backup-confined cfg now d s =
      let pipe = piped (encrypt a random cfg.encryption_key d.input (endless [])) in
      let m = manifest_of b j a random sha256 urls cfg now d pipe.bytes in
      let g = λ (e : Text). lit "store encrypted artifact: " ++ e in
      ap
        (λ x.
          after (reworded g x) (λ _. store_manifest (confined is_key b) j a random sha256 urls m))
        (confined-put b m.artifact_key pipe s (artifact_key_of-IsKey now))
      ∙ ap (λ n. after (reworded g (b.put m.artifact_key pipe s)) (λ _. n))
          (fun_ext (λ s'. store_manifest-confined m now s' refl))

  after_prepare-confined :
      {H : Type 0} (host : Host H) (cfg : Config) (now : Time) (s : S) (x : Result Text Dumped × H)
      → after_prepare (confined is_key b) j a random sha256 urls host cfg now s x
        ≡ after_prepare b j a random sha256 urls host cfg now s x
  unfolding after_prepare
  after_prepare-confined host cfg now s (err e, h) = refl
  after_prepare-confined host cfg now s (ok d, h) =
      ap (λ y. (y.0, (y.1, host.remove d.path h))) (store_backup-confined cfg now d s)

  run-confined :
      {H : Type 0} (host : Host H) (cfg : Config) (now : Time) (s : S) (h : H)
      → run (confined is_key b) j a random sha256 urls host cfg now (s, h)
        ≡ run b j a random sha256 urls host cfg now (s, h)
  unfolding run
  run-confined host cfg now s h = after_prepare-confined host cfg now s (prepare host sha256 cfg h)

-- A backup into a directory of a file system that keeps its promises leaves no manifest without its
-- artifact, if there was none before, whichever call of a tool or of the file system fails.
pub run-local-IsComplete :
    {S H : Type 0} (fs : Files S) (tree : S → FilePath → Option Text) (dir : FilePath) (j : Json)
    (a : Aead) (random : Random) (sha256 : Text → Text) (urls : Urls) (host : Host H) (cfg : Config)
    (now : Time) (s : S) (h : H)
    → IsFiles fs tree
    → IsComplete (within is_key (view_of tree dir) s)
    → IsComplete (
        within is_key
          (view_of tree dir)
          (run (local fs dir) j a random sha256 urls host cfg now (s, h)).1.0)
run-local-IsComplete fs tree dir j a random sha256 urls host cfg now s h laws before =
    let b = local fs dir in
    let view = view_of tree dir in
    let st = confined-IsStore is_key b view (local-IsStoreOn fs tree laws dir) in
    subst (λ x. IsComplete (within is_key view x.1.0))
      (run-confined b j a random sha256 urls host cfg now s h)
      (run-IsComplete (confined is_key b) (within is_key view) st j a random sha256 urls host cfg
        now s h before)

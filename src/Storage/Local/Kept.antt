-- ===== src/Storage/Local/Kept.antt =====
-- internal/storage/storage.go: what `Put` leaves, whichever of its steps fails.
use backwyn.Prelude.{
  ◌≡◌, ◌≢◌, refl, sym, ◌∙◌, Option, none, some, [], ◌∷◌, ◌++◌, Result, ok, err, arith,
}
use backwyn.Prelude.Text.{Text, lit}
use backwyn.Prelude.Text.Paths.{FilePath, parent, join_path}
use backwyn.Storage.{Reader}
use backwyn.Storage.Files.{Files, IsFiles}
use backwyn.Storage.Local.{after_closed, after_copied, after_created, after_parent, put}

-- No temporary file of `Put` has this path.
abbrev pub Permanent : FilePath → Type 0
Permanent q = (d : FilePath) (r : Text) → d ++ (lit ".tmp-" ++ r) ∷ [] ≢ q

module _ {H : Type 0} (fs : Files H) (tree : H → FilePath → Option Text)
    (laws : IsFiles fs tree) where
  -- A rename of `tmp` to `dst` that is carried out or changes nothing.
  abbrev Moved :
      (FilePath → Option Text) → FilePath → FilePath → Result Text (Unit {0}) × H → Type 0
  Moved before dst tmp y =
      ((q : FilePath) → tmp ≢ q → dst ≢ q → tree y.1 q ≡ before q)
      × (y.0 ≡ ok tt → tree y.1 dst ≡ before tmp)
      × ((e : Text) → y.0 ≡ err e → tree y.1 dst ≡ before dst)

  -- A write of what `r` yields to `dst`, likewise.
  abbrev pub Stored :
      (FilePath → Option Text) → FilePath → Reader → Result Text (Unit {0}) × H → Type 0
  Stored before dst r y =
      ((q : FilePath) → Permanent q → dst ≢ q → tree y.1 q ≡ before q)
      × (y.0 ≡ ok tt → (r.fault ≡ none) × (tree y.1 dst ≡ some r.bytes))
      × ((e : Text) → y.0 ≡ err e → tree y.1 dst ≡ before dst)

  closed-Moved :
      (dst tmp : FilePath) (x : Result Text (Unit {0}) × H)
      → Moved (tree x.1) dst tmp (after_closed fs dst tmp x)
  unfolding after_closed
  closed-Moved dst tmp (err e, h) = (λ q n m. refl, λ g. absurd (ground arith), λ f g. refl)
  closed-Moved dst tmp (ok u, h) = (
    λ q n m. laws.rename_other tmp dst h q n m,
    λ g. laws.rename_ok tmp dst h g,
    λ e g. laws.rename_err tmp dst h e dst g,
  )

  copied-Moved :
      (dst tmp : FilePath) (x : Result Text (Unit {0}) × H)
      → Moved (tree x.1) dst tmp (after_copied fs dst tmp x)
  unfolding after_copied
  copied-Moved dst tmp (err e, h) = (
    λ q n m. laws.close_tree tmp h q,
    λ g. absurd (ground arith),
    λ f g. laws.close_tree tmp h dst,
  )
  copied-Moved dst tmp (ok u, h) =
      let (others, moved, kept) = closed-Moved dst tmp (fs.close tmp h) in
      (
        λ q n m. others q n m ∙ laws.close_tree tmp h q,
        λ g. moved g ∙ laws.close_tree tmp h tmp,
        λ e g. kept e g ∙ laws.close_tree tmp h dst,
      )

  -- Nothing is renamed unless everything was copied.
  copied-ok :
      (dst tmp : FilePath) (x : Result Text (Unit {0}) × H)
      → (after_copied fs dst tmp x).0 ≡ ok tt
      → x.0 ≡ ok tt
  unfolding after_copied
  copied-ok dst tmp (err e, h) g = absurd (ground arith)
  copied-ok dst tmp (ok u, h) g = refl

  created-Stored :
      (dst : FilePath) (r : Reader) (x : Result Text FilePath × H)
      → Permanent dst
      → ((t : FilePath)
          → x.0 ≡ ok t
          → ((q : FilePath) → Permanent q → t ≢ q) × (tree x.1 t ≡ some []))
      → Stored (tree x.1) dst r (after_created fs dst r x)
  unfolding after_created
  created-Stored dst r (err e, h) p new = (λ q n m. refl, λ g. absurd (ground arith), λ f g. refl)
  created-Stored dst r (ok t, h) p new =
      let (temporary, empty) = new t refl in
      let y = after_copied fs dst t (fs.copy t r h) in
      let (others, moved, kept) = copied-Moved dst t (fs.copy t r h) in
      (
        λ q n m.
            laws.remove_other t y.1 q (temporary q n)
            ∙ (others q (temporary q n) m ∙ laws.copy_other t r h q (temporary q n)),
        λ g.
            let (all, bytes) = laws.copy_ok t r h [] (copied-ok dst t (fs.copy t r h) g) empty in
            (all, laws.remove_other t y.1 dst (temporary dst p) ∙ (moved g ∙ bytes)),
        λ e g.
            laws.remove_other t y.1 dst (temporary dst p)
            ∙ (kept e g ∙ laws.copy_other t r h dst (temporary dst p)),
      )

  -- The file that `os.CreateTemp` makes is none of the permanent ones.
  is_temporary :
      (d : FilePath) (h : H) (t : FilePath)
      → (fs.create_temp d (lit ".tmp-") h).0 ≡ ok t
      → (q : FilePath) → Permanent q
      → t ≢ q
  is_temporary d h t g q p e =
      let (r, name) = laws.temp_name d (lit ".tmp-") h t g in p d r (sym name ∙ e)

  parent-Stored :
      (dst : FilePath) (r : Reader) (x : Result Text (Unit {0}) × H)
      → Permanent dst
      → Stored (tree x.1) dst r (after_parent fs dst r x)
  unfolding after_parent
  parent-Stored dst r (err e, h) p = (λ q n m. refl, λ g. absurd (ground arith), λ f g. refl)
  parent-Stored dst r (ok u, h) p =
      let x = fs.create_temp (parent dst) (lit ".tmp-") h in
      let (others, stored, kept) = created-Stored dst r x p (λ t g.
        (is_temporary (parent dst) h t g, (laws.temp_new (parent dst) (lit ".tmp-") h t g).1)) in
      let same : (q : FilePath) → Permanent q → tree x.1 q ≡ tree h q = λ q n.
        laws.temp_other (parent dst) (lit ".tmp-") h q
          (λ g. is_temporary (parent dst) h q g q n refl) in
      (λ q n m. others q n m ∙ same q n, stored, λ e g. kept e g ∙ same dst p)

  -- `Put` replaces the file of its key by all that the reader yields, or leaves it as it was; no other
  -- file changes but temporary ones.
  pub put-Stored :
      (dir : FilePath) (k : Text) (r : Reader) (h : H)
      → Permanent (join_path dir k)
      → Stored (tree h) (join_path dir k) r (put fs dir k r h)
  unfolding put
  put-Stored dir k r h p =
      let dst = join_path dir k in
      let (others, stored, kept) = parent-Stored dst r (fs.mkdir_all (parent dst) h) p in
      let same = laws.mkdir_tree (parent dst) h in
      (λ q n m. others q n m ∙ same q, stored, λ e g. kept e g ∙ same dst)

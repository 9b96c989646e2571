-- ===== src/Command/Listing.antt =====
-- cmd/backwyn/main.go: `list`.
use backwyn.Prelude.{Option, none, some, List, [], ◌∷◌, ◌++◌, Result, ok, err, if◌then◌else◌}
use backwyn.Prelude.Text.{Text, lit, show_ℤ}
use backwyn.Storage.{Backend, Reader}
use backwyn.Manifest.{Manifest, decode}
use backwyn.Command.Runtime.{System, Process, Outcome, success, failure, print, show_int64}

-- The line of a manifest.
unfoldable pub manifest_line : Manifest → Text
unfolding show_int64 show_ℤ
manifest_line m =
    m.id
    ++ (lit "\t"
        ++ (m.source_label
            ++ (lit "\t"
                ++ (show_int64 m.plaintext_size
                    ++ (lit "\t"
                        ++ ((if m.verification.verified then lit "yes" else lit "NO")
                            ++ (lit "\t"
                                ++ (show_ℤ m.verification.table_count
                                    ++ (lit "\t" ++ (m.verification.error ++ lit "\n"))))))))))

-- The text of the table so far, and the error that ends the loop.
abbrev Rows : Type 0
Rows = Text × Option Text

module _ {S H P : Type 0} (sys : System S H P) (b : Backend S) where
  -- The body of the loop behind `store.Get`, with what follows it.
  unfoldable pub after_get : Text → (Text → S → Rows × S) → Result Text Reader × S → Rows × S
  unfolding manifest_line decode
  after_get text rest (err e, s) = ((text, some e), s)
  after_get text rest (ok rc, s) = elim (decode sys.json rc) [
    | err e ↦ ((text, some e), s)
    | ok m ↦ rest (text ++ manifest_line m) s
  ]

  unfoldable pub list_loop : List Text → Text → S → Rows × S
  unfolding after_get
  list_loop [] text s = ((text, none), s)
  list_loop (k ∷ ks) text s = after_get text (list_loop ks) (b.get k s)

  -- `w.Flush`
  unfoldable pub flushed : Text × Option Text → Process S H → Outcome × Process S H
  flushed (text, none) p = (success, print text p)
  flushed (text, some e) p = (failure e, print text p)

  unfoldable pub after_loop : Rows × S → Process S H → Outcome × Process S H
  unfolding flushed
  after_loop ((text, some e), s) p =
      (failure e, print (sys.unflushed text) (record p { store = s }))
  after_loop ((text, none), s) p = flushed (sys.table text) (record p { store = s })

  -- `list` behind `store.List`
  unfoldable pub after_list : Result Text (List Text) × S → Process S H → Outcome × Process S H
  unfolding after_loop list_loop
  after_list (err e, s) p = (failure e, record p { store = s })
  after_list (ok ks, s) p =
      after_loop (list_loop ks (lit "ID\tSOURCE\tPLAINTEXT\tVERIFIED\tTABLES\tNOTE\n") s) p

  -- `list`
  unfoldable pub list : Process S H → Outcome × Process S H
  unfolding after_list
  list p = after_list (b.list (lit "manifests/") p.store) p

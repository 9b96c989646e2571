-- ===== src/Pgtools/Tests.antt =====
-- internal/pgtools/pgtools.go: runs of the functions on texts, and of the theorem on the scope.
use backwyn.Prelude.{◌≡◌, ◌⊎◌, refl, true, [], ◌∷◌, ◌++◌}
use backwyn.Prelude.Text.{Text, lit}
use backwyn.Pgtools.Sql.{clean_idents, dump_args, filter_sandbox_toc}
use backwyn.Pgtools.Client.{rls_scope}
use backwyn.Pgtools.Quoting.{IsListOf, rls_scope-IsListOf}

abbrev hostile : Text
unfolding lit
hostile = lit "x'); DROP TABLE \"t\"; --"

rls_scope-IsListOf_example :
    ((clean_idents (lit "public" ∷ hostile ∷ []) ≡ [])
      × (rls_scope (lit "public" ∷ hostile ∷ []) ≡ []))
    ⊎ ((t : Text) × (rls_scope (lit "public" ∷ hostile ∷ []) ≡ lit "AND n.nspname IN (" ++ t)
        × IsListOf (clean_idents (lit "public" ∷ hostile ∷ [])) t)
rls_scope-IsListOf_example = rls_scope-IsListOf (lit "public" ∷ hostile ∷ [])

dump_args_of :
    dump_args (lit "dsn") (lit "out") (lit "public" ∷ lit " " ∷ []) true
    ≡ lit "--format=custom"
      ∷ lit "--no-owner"
      ∷ lit "--no-privileges"
      ∷ lit "--enable-row-security"
      ∷ lit "-n"
      ∷ lit "public"
      ∷ lit "--file"
      ∷ lit "out"
      ∷ lit "--dbname"
      ∷ lit "dsn"
      ∷ []
unfolding dump_args lit
dump_args_of = refl

filtered :
    filter_sandbox_toc (
      lit
        ";\n5; 2615 2200 SCHEMA - public pg\n6; 2615 2201 SCHEMA - publicity pg\n7; 3256 1 POLICY public t p pg\n")
    ≡ lit
        ";\n;5; 2615 2200 SCHEMA - public pg\n6; 2615 2201 SCHEMA - publicity pg\n;7; 3256 1 POLICY public t p pg\n"
unfolding filter_sandbox_toc lit
filtered = refl

-- ===== src/Prelude/Text/Paths.antt =====
-- Rooted paths as the lists of their components, with what is used of `path/filepath`.
use mathlib.Core.Bool.{Bool, true, not, ◌&&◌, ◌||◌}
use mathlib.Core.List.{List, [], ◌∷◌, ◌++◌}
use backwyn.Prelude.Tests.{◌==◌, if◌then◌else◌}
use backwyn.Prelude.Text.{Text, lit, text_eq, join}
use backwyn.Prelude.Text.Split.{split}

abbrev pub FilePath : Type 0
FilePath = List Text

-- `filepath.Dir`
unfoldable pub parent : FilePath → FilePath
parent [] = []
parent (x ∷ []) = []
parent (x ∷ y ∷ xs) = x ∷ parent (y ∷ xs)

-- One component more, as `filepath.Clean` reads it.
unfoldable pub enter : FilePath → Text → FilePath
unfolding parent
enter p c =
    if text_eq c [] || text_eq c (lit ".")
    then p
    else if text_eq c (lit "..")
    then parent p
    else p ++ c ∷ []

unfoldable pub enter_all : FilePath → List Text → FilePath
enter_all p [] = p
enter_all p (c ∷ cs) = enter_all (enter p c) cs

-- `filepath.Join(dir, key)`
unfoldable pub join_path : FilePath → Text → FilePath
unfolding enter_all
join_path dir key = enter_all dir (split key 47)

unfoldable pub ups : FilePath → FilePath → FilePath
ups [] ts = ts
ups (b ∷ bs) ts = lit ".." ∷ ups bs ts

-- `filepath.Rel(base, p)`, which fails on no two rooted paths.
unfoldable pub rel : FilePath → FilePath → FilePath
unfolding ups
rel [] [] = lit "." ∷ []
rel [] (t ∷ ts) = t ∷ ts
rel (b ∷ bs) [] = ups (b ∷ bs) []
rel (b ∷ bs) (t ∷ ts) = let rest = rel bs ts in if text_eq b t then rest else ups (b ∷ bs) (t ∷ ts)

-- `filepath.ToSlash`
unfoldable pub to_slash : FilePath → Text
to_slash p = join p (lit "/")

-- A component that `filepath.Clean` keeps.
abbrev pub is_name : Text → Bool
is_name c = not (text_eq c []) && (not (text_eq c (lit ".")) && not (text_eq c (lit "..")))

abbrev pub all : (Text → Bool) → List Text → Bool
all f [] = true
all f (c ∷ cs) = f c && all f cs

abbrev pub without_slash : Text → Bool
without_slash [] = true
without_slash (c ∷ s) = not (c == 47) && without_slash s

-- ===== src/Prelude/Text/Trim.antt =====
-- Trimming gives back what a prefix or a suffix was joined to, and tests find it.
use Prim.Native.Nat.{◌-◌}
use mathlib.Core.Path.{◌≡◌, refl}
use mathlib.Core.Bool.{true}
use mathlib.Core.List.{[], ◌∷◌, ◌++◌}
use native.Mathlib.Omega.{arith}
use backwyn.Prelude.Lists.{length, drop, length-append, take-append, drop-append}
use backwyn.Prelude.Text.{Text, text_eq_refl, has_prefix, has_suffix, trim_prefix, trim_suffix}

pub has_prefix-append : (p s : Text) → has_prefix (p ++ s) p ≡ true
unfolding has_prefix
has_prefix-append [] [] = refl
has_prefix-append [] (c ∷ s) = refl
has_prefix-append (c ∷ p) s = ground (arith, has_prefix-append p s)

pub trim_prefix-append : (p s : Text) → trim_prefix (p ++ s) p ≡ s
unfolding trim_prefix
trim_prefix-append p s = rw (has_prefix-append p s) (drop-append p s)

pub has_suffix-append : (s p : Text) → has_suffix (s ++ p) p ≡ true
unfolding has_suffix
has_suffix-append s p =
    let e : length (s ++ p) - length p ≡ length s = omega (arith, length-append s p) in
    rw (e, drop-append s p, text_eq_refl p) (ground (arith, length-append s p))

pub trim_suffix-append : (s p : Text) → trim_suffix (s ++ p) p ≡ s
unfolding trim_suffix
trim_suffix-append s p =
    let e : length (s ++ p) - length p ≡ length s = omega (arith, length-append s p) in
    rw (has_suffix-append s p, e) (take-append s p)

-- A text with the prefix is the prefix and the rest.
pub append-drop_of_has_prefix : (s p : Text) → has_prefix s p ≡ true → p ++ drop (length p) s ≡ s
unfolding has_prefix drop
append-drop_of_has_prefix s [] h = refl
append-drop_of_has_prefix [] (c ∷ p) h = ground arith
append-drop_of_has_prefix (x ∷ s) (c ∷ p) h = ground (arith, append-drop_of_has_prefix s p)

-- ===== src/Prelude/Texts.antt =====
-- JavaScript strings: lists of UTF-16 code units, with the string methods that the program calls.
use Prim.Native.Nat.{ℕ, ◌-◌}
use Prim.Native.Char.{code}
use Prim.Native.String.{String}
use mathlib.Core.Path.{◌≡◌, refl}
use mathlib.Core.Logic.{◌↔◌}
use mathlib.Core.Bool.{Bool, true, false, ◌&&◌}
use mathlib.Core.List.{List, [], ◌∷◌, ◌++◌}
use mathlib.Core.Option.{Option, none, some}
use native.Mathlib.Omega.{arith}
use multi_rpc.Prelude.Tests.{◌==◌, if◌then◌else◌}
use multi_rpc.Prelude.Lists.{take, drop, length}

abbrev pub Text : Type 0
Text = List ℕ

-- A literal of the source (its characters are ASCII).
abbrev pub lit : String → Text
lit String.[] = []
lit (String.◌∷◌ c s) = code c ∷ lit s

-- `a === b`
unfoldable pub text_eq : Text → Text → Bool
text_eq [] [] = true
text_eq (c ∷ s) (d ∷ t) = c == d && text_eq s t
text_eq _ _ = false

pub text_eq_iff : (s t : Text) → (text_eq s t ≡ true) ↔ (s ≡ t)
unfolding text_eq
text_eq_iff [] [] = ground arith
text_eq_iff [] (d ∷ t) = ground arith
text_eq_iff (c ∷ s) [] = ground arith
text_eq_iff (c ∷ s) (d ∷ t) = ground (arith, text_eq_iff s t)

pub text_eq_refl : (s : Text) → text_eq s s ≡ true
text_eq_refl s = (text_eq_iff s s).1 refl

-- `s.startsWith(p)`
unfoldable pub starts_with : Text → Text → Bool
starts_with s [] = true
starts_with [] (d ∷ p) = false
starts_with (c ∷ s) (d ∷ p) = c == d && starts_with s p

pub starts_with-append : (p s : Text) → starts_with (p ++ s) p ≡ true
unfolding starts_with
starts_with-append [] s = refl
starts_with-append (c ∷ p) s = ground (arith, starts_with-append p s)

-- `s.substring(a, b)` for `a ≤ b`
abbrev pub substring : Text → ℕ → ℕ → Text
substring s a b = take (b - a) (drop a s)

-- `s.replace(p, "")`: the first occurrence of `p` is dropped.
unfoldable pub remove_first : Text → Text → Text
remove_first [] p = []
remove_first (c ∷ s) p =
    if starts_with (c ∷ s) p then drop (length p) (c ∷ s) else c ∷ remove_first s p

-- `s || d` on a string that may be missing: the empty string is falsy too.
abbrev pub text_or : Option Text → Text → Text
text_or none d = d
text_or (some []) d = d
text_or (some (c ∷ s)) d = c ∷ s

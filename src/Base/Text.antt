-- ===== src/Base/Text.antt =====
-- Python's `str` as its list of code points, `bytes` as a list of numbers below 256.
use Prim.Native.Nat.{ℕ}
use Prim.Native.Char.{code}
use Prim.Native.String.{String}
use mathlib.Core.Path.{◌≡◌, refl}
use mathlib.Core.Logic.{◌↔◌, ◌≢◌}
use mathlib.Core.Bool.{Bool, true, false}
use mathlib.Core.List.{List, [], ◌∷◌, ◌++◌}
use mathlib.Core.Option.{Option, none, some}
use native.Mathlib.Omega.{arith}
use agent_authorization_gate.Base.Tests.{◌==◌, if◌then◌else◌}

abbrev pub Str : Type 0
Str = List ℕ

abbrev pub Bytes : Type 0
Bytes = List ℕ

-- A literal of the source.
abbrev pub codes : String → Str
codes String.[] = []
codes (String.◌∷◌ c s) = code c ∷ codes s

-- `a == b` on texts and on bytes.
unfoldable pub str_eq : Str → Str → Bool
str_eq [] [] = true
str_eq [] (_ ∷ _) = false
str_eq (_ ∷ _) [] = false
str_eq (a ∷ s) (b ∷ t) = if a == b then str_eq s t else false

pub str_eq_iff : (s t : Str) → (str_eq s t ≡ true) ↔ (s ≡ t)
unfolding str_eq
str_eq_iff [] [] = ground arith
str_eq_iff [] (b ∷ t) = ground arith
str_eq_iff (a ∷ s) [] = ground arith
str_eq_iff (a ∷ s) (b ∷ t) = ground (arith, str_eq_iff s t)

pub str_eq_refl : (s : Str) → str_eq s s ≡ true
str_eq_refl s = (str_eq_iff s s).1 refl

-- `s.startswith(p)`
unfoldable pub starts_with : Str → Str → Bool
starts_with [] s = true
starts_with (_ ∷ _) [] = false
starts_with (a ∷ p) (b ∷ s) = if a == b then starts_with p s else false

-- `p in s`, as a substring.
unfoldable pub contains_text : Str → Str → Bool
unfolding starts_with
contains_text p [] = starts_with p []
contains_text p (c ∷ s) = if starts_with p (c ∷ s) then true else contains_text p s

-- What follows the prefix `p`, if `s` begins with it.
unfoldable pub strip : Str → Str → Option Str
strip [] s = some s
strip (_ ∷ _) [] = none
strip (a ∷ p) (b ∷ s) = if a == b then strip p s else none

-- `s.removeprefix(p)`
unfoldable pub remove_prefix : Str → Str → Str
unfolding strip
remove_prefix p s = elim (strip p s) [ none ↦ s | some rest ↦ rest ]

pub strip-append : (p s : Str) → strip p (p ++ s) ≡ some s
unfolding strip
strip-append [] s = refl
strip-append (a ∷ p) s = ground (arith, strip-append p s)

pub remove_prefix-append : (p s : Str) → remove_prefix p (p ++ s) ≡ s
unfolding remove_prefix
remove_prefix-append p s = ground (arith, strip-append p s)

-- Two texts are told apart by the test.
pub str_ne : (s t : Str) → str_eq s t ≡ false → s ≢ t
str_ne s t h e = cc (h, (str_eq_iff s t).1 e)

-- ===== src/Common/Text.antt =====
-- Text: the native `String` is compared whole; where the code looks inside a text or changes its
-- case, the text is the list of its code points, and upper case is that of ASCII.
use Prim.Native.Nat.{ℕ, ◌-◌}
use Prim.Native.Char.{code}
use Prim.Native.String
use Prim.Native.String.{String}
use mathlib.Core.Path.{◌≡◌, refl}
use mathlib.Core.Bool.{Bool, true, false, ◌&&◌, ◌||◌, not}
use mathlib.Core.List.{List, [], ◌∷◌, map}
use mathlib.Core.Logic.{◌↔◌}
use mathlib.Core.Option.{Option, none, some}
use native.Mathlib.Omega.{arith}
use text.Mathlib.Text
use text.Mathlib.TextEquality.{eq_iff}
use text.Mathlib.TextPositions.{eq_refl}
use custody_service.Common.Tests.{leb, ◌==◌, if◌then◌else◌}

abbrev pub text_eq : String → String → Bool
text_eq s t = Text.◌==◌ s t

pub text_eq_iff : (s t : String) → (text_eq s t ≡ true) ↔ (s ≡ t)
text_eq_iff s t = eq_iff s t

pub text_eq_refl : (s : String) → text_eq s s ≡ true
text_eq_refl s = eq_refl s

-- `s + t`
abbrev pub append_text : String → String → String
append_text s t = String.◌++◌ s t

-- Python's truth value of a text that may be missing: neither `None` nor empty.
abbrev pub is_filled : Option String → Bool
is_filled none = false
is_filled (some s) = not (text_eq s "")

-- `IS NOT DISTINCT FROM` of SQL, on texts that may be missing.
abbrev pub same_text? : Option String → Option String → Bool
same_text? none none = true
same_text? none (some t) = false
same_text? (some s) none = false
same_text? (some s) (some t) = text_eq s t

abbrev pub codes : String → List ℕ
codes String.[] = []
codes (String.◌∷◌ c s) = code c ∷ codes s

abbrev pub to_upper : ℕ → ℕ
to_upper c = if leb b'a' c && leb c b'z' then c - 32 else c

-- `str.upper()` and `UPPER(…)`
unfoldable pub upper : String → List ℕ
upper s = map to_upper (codes s)

abbrev pub codes_eq : List ℕ → List ℕ → Bool
codes_eq [] [] = true
codes_eq [] (_ ∷ _) = false
codes_eq (_ ∷ _) [] = false
codes_eq (a ∷ s) (b ∷ t) = a == b && codes_eq s t

-- `s.startswith(t)`
abbrev pub starts_with : List ℕ → List ℕ → Bool
starts_with s [] = true
starts_with [] (_ ∷ _) = false
starts_with (a ∷ s) (b ∷ t) = a == b && starts_with s t

-- `t in s`
abbrev pub contains : List ℕ → List ℕ → Bool
contains [] t = starts_with [] t
contains (a ∷ s) t = starts_with (a ∷ s) t || contains s t

pub codes_eq_refl : (s : List ℕ) → codes_eq s s ≡ true
codes_eq_refl [] = refl
codes_eq_refl (a ∷ s) = ground (arith, codes_eq_refl s)

pub codes_eq→eq : (s t : List ℕ) → codes_eq s t ≡ true → s ≡ t
codes_eq→eq [] [] h = refl
codes_eq→eq [] (b ∷ t) h = cc
codes_eq→eq (a ∷ s) [] h = cc
codes_eq→eq (a ∷ s) (b ∷ t) h = ground (arith, codes_eq→eq s t)

-- ===== src/Prelude/Text.antt =====
-- Python's `str` as native text. `lower` folds the ASCII letters, which is what `str.lower` does to
-- ASCII text; `decimal` is `str` of a non-negative integer; `f_string` joins the parts of an
-- f-string.
use Prim.Native.Nat.{ℕ, zero, suc, ◌-◌, ◌/◌, ◌%◌, Ordering}
use Prim.Native.Char.{Char, code}
use Prim.Native.String.{String, char_at, compare, then}
use Prim.Native.String
use Prim.Native.String.compare as text_compare
use mathlib.Core.Path.{◌≡◌, refl}
use mathlib.Core.Bool.{Bool, true, false, ◌&&◌}
use mathlib.Core.List.{List, [], ◌∷◌}
use text.Mathlib.Text.{find?}
use v_machine.Prelude.Tests.{leb, ltb, if◌then◌else◌, is_some}

lower_char : Char → Char
lower_char c =
    if leb 65 (code c) && leb (code c) 90
    then char_at "abcdefghijklmnopqrstuvwxyz" (code c - 65)
    else c

-- s.lower()
unfoldable pub lower : String → String
unfolding lower_char
lower String.[] = String.[]
lower (String.◌∷◌ c s) = String.◌∷◌ (lower_char c) (lower s)

-- part in s
unfoldable pub contains : String → String → Bool
contains part s = is_some (find? s part)

abbrev pub f_string : List String → String
f_string [] = ""
f_string (s ∷ parts) = String.◌++◌ s (f_string parts)

digit : ℕ → String
digit n = String.◌∷◌ (char_at "0123456789" n) String.[]

decimal_from : ℕ → ℕ → String
decimal_from zero n = ""
decimal_from (suc f) n =
    let high = decimal_from f (n / 10) in
    if ltb n 10 then digit n else String.◌++◌ high (digit (n % 10))

-- str(n); a number has no more digits than its value, plus one
unfoldable pub decimal : ℕ → String
unfolding decimal_from digit
decimal n = decimal_from (suc n) n

-- s <= t, by code points
abbrev pub text_leb : String → String → Bool
text_leb s t = elim (compare s t) [ Ordering.gt ↦ false | _ ↦ true ]

lower_test : lower "PoweredOff-3" ≡ "poweredoff-3"
unfolding lower
lower_test = refl

contains_test : contains "red hat" (lower "Red Hat Enterprise Linux 8") ≡ true
unfolding contains lower
contains_test = refl

decimal_test : decimal 20480 ≡ "20480"
unfolding decimal
decimal_test = refl

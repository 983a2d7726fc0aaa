-- ===== src/Base/Texts.antt =====
-- Texts as lists of code points, and what the program uses of Python's `in`, `lower`, `startswith`
-- and `re.search`.
use Prim.Native.Nat.{ℕ, zero, suc, ◌+◌, ◌/◌, ◌%◌}
use Prim.Native.Char.{code}
use Prim.Native.String.{String, slice, ◌++◌ as append}
use mathlib.Core.Path.{◌≡◌, refl}
use mathlib.Core.Bool.{Bool, true, false, not, ◌&&◌, ◌||◌}
use mathlib.Core.List.{List, [], ◌∷◌, map}
use condora.Base.Tests.{leb, nat_beq, if◌then◌else◌}
use condora.Base.Lists.{length, drop}

abbrev pub Text : Type 0
Text = List ℕ

abbrev pub codes : String → Text
codes String.[] = []
codes (String.◌∷◌ c s) = code c ∷ codes s

unfoldable pub starts_with : Text → Text → Bool
starts_with t [] = true
starts_with [] (c ∷ p) = false
starts_with (d ∷ t) (c ∷ p) = nat_beq d c && starts_with t p

-- `p in t`
unfoldable pub has_infix : Text → Text → Bool
unfolding starts_with
has_infix p [] = starts_with [] p
has_infix p (c ∷ t) = starts_with (c ∷ t) p || has_infix p t

-- `lower`, on the letters of ASCII: the texts it is compared with are made of these, and no other
-- character has a lower case among those letters but the Kelvin sign, whose `k` does not occur.
unfoldable pub lower : Text → Text
lower = map (λ c. if leb 65 c && leb c 90 then c + 32 else c)

-- A regular expression of the program: a literal, or two literals with `.*` between them.
pub data Pattern : Type 0 where
  literal : Text → Pattern
  gap : Text → Text → Pattern

-- `.*p` from here: `.` is any character but a line feed.
unfoldable pub on_line : Text → Text → Bool
unfolding starts_with
on_line p [] = starts_with [] p
on_line p (c ∷ t) = starts_with (c ∷ t) p || (not (nat_beq c 10) && on_line p t)

unfoldable pub search_gap : Text → Text → Text → Bool
unfolding on_line
search_gap p q [] = starts_with [] p && on_line q []
search_gap p q (c ∷ t) =
    (starts_with (c ∷ t) p && on_line q (drop (length p) (c ∷ t))) || search_gap p q t

-- Under `re.IGNORECASE` these characters match as the letter does.
unfoldable pub fold_case : Text → Text
fold_case = map (λ c.
    if leb 65 c && leb c 90
    then c + 32
    else if nat_beq c 0x130 || nat_beq c 0x131
    then b'i'
    else if nat_beq c 0x17f
    then b's'
    else if nat_beq c 0x212a
    then b'k'
    else c)

-- `re.search(pattern, text, re.IGNORECASE) is not None`
unfoldable pub search : Pattern → Text → Bool
unfolding has_infix search_gap fold_case
search (literal p) t = has_infix (fold_case p) (fold_case t)
search (gap p q) t = search_gap (fold_case p) (fold_case q) (fold_case t)

search_two_lines : search (gap (codes "xrdcp") (codes "failed")) (codes "XRDCP run\nfailed") ≡ false
unfolding search
search_two_lines = refl

search_one_line : search (gap (codes "xrdcp") (codes "failed")) (codes "a XRDCP run Failed") ≡ true
unfolding search
search_one_line = refl

-- The digit below 10.
abbrev pub digit : ℕ → String
digit d = slice "0123456789" d (d + 1)

-- `str(n)`. The fuel is the number itself: each digit makes it smaller.
unfoldable pub decimal_from : ℕ → ℕ → String → String
decimal_from zero n digits = digits
decimal_from (suc fuel) n digits =
    let rest = decimal_from fuel (n / 10) (append (digit (n % 10)) digits) in
    if nat_beq (n / 10) 0 then append (digit (n % 10)) digits else rest

unfoldable pub decimal : ℕ → String
unfolding decimal_from
decimal n = decimal_from (n + 1) n ""

decimal_run : decimal 1207 ≡ "1207"
unfolding decimal
decimal_run = refl

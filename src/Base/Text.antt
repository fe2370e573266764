-- ===== src/Base/Text.antt =====
-- What the program does with texts: membership, splitting at a separator, and decimal numbers.
use Prim.Native.Nat.{ℕ, zero, suc, ◌+◌, ◌-◌, ◌*◌, ◌/◌, ◌%◌}
use Prim.Native.Char.{Char, code}
use Prim.Native.String.{String, [], ◌∷◌, ◌++◌, count}
use mathlib.Core.Bool.{Bool, true, false, ◌&&◌, ◌||◌}
use mathlib.Core.List.{List}
use mathlib.Core.Option.{Option, none, some}
use text.Mathlib.Text.{◌==◌, starts_with}
use cloudshell_shell_automat.Base.Logic.{leb, ltb, ◌=?◌, if◌then◌else◌, or_else}

-- `a in xs`
abbrev pub elem : String → List String → Bool
elem a List.[] = false
elem a (List.◌∷◌ x xs) = a == x || elem a xs

-- `not s`
abbrev pub is_blank : String → Bool
is_blank [] = true
is_blank (c ∷ s) = false

-- `part in s`
unfoldable pub contains : String → String → Bool
contains part [] = starts_with [] part
contains part (c ∷ s) = starts_with (c ∷ s) part || contains part s

abbrev push_front : Char → Option (String × String) → Option (String × String)
push_front c none = none
push_front c (some (a, b)) = some (c ∷ a, b)

-- The parts before and after the first separator: `s.split(sep, 1)`.
unfoldable pub break_first : ℕ → String → Option (String × String)
break_first sep [] = none
break_first sep (c ∷ s) =
    let rest = break_first sep s in if code c =? sep then some ([], s) else push_front c rest

abbrev or_here : Bool → Char → String → Option (String × String) → Option (String × String)
or_here here c s (some (a, b)) = some (c ∷ a, b)
or_here true c s none = some ([], s)
or_here false c s none = none

-- The parts before and after the last separator: `s.rsplit(sep, 1)`.
unfoldable pub break_last : ℕ → String → Option (String × String)
break_last sep [] = none
break_last sep (c ∷ s) = or_here (code c =? sep) c s (break_last sep s)

abbrev extend : Char → List String → List String
extend c List.[] = List.◌∷◌ (c ∷ []) List.[]
extend c (List.◌∷◌ x xs) = List.◌∷◌ (c ∷ x) xs

-- `s.split(sep)`, with one part at least.
unfoldable pub split : ℕ → String → List String
split sep [] = List.◌∷◌ [] List.[]
split sep (c ∷ s) =
    let rest = split sep s in if code c =? sep then List.◌∷◌ [] rest else extend c rest

-- What follows a prefix.
unfoldable pub strip : String → String → Option String
strip [] s = some s
strip (d ∷ p) [] = none
strip (d ∷ p) (c ∷ s) = if code c =? code d then strip p s else none

abbrev rest_or {ℓ} : {A : Type ℓ} → A → Option A → A
rest_or s none = s
rest_or s (some r) = r

-- `s.removeprefix(p)`
unfoldable pub remove_prefix : String → String → String
unfolding strip
remove_prefix s p = rest_or s (strip p s)

abbrev pub is_digit : Char → Bool
is_digit c = leb b'0' (code c) && leb (code c) b'9'

-- `\d*` on the whole text
unfoldable pub all_digits : String → Bool
all_digits [] = true
all_digits (c ∷ s) = is_digit c && all_digits s

-- `int(s)` of a text of digits, behind the digits read so far.
unfoldable pub digits_value : ℕ → String → ℕ
digits_value n [] = n
digits_value n (c ∷ s) = digits_value (n * 10 + (code c - b'0')) s

abbrev pub digit_char : ℕ → Char
digit_char zero = "0"
digit_char (suc zero) = "1"
digit_char (suc (suc zero)) = "2"
digit_char (suc (suc (suc zero))) = "3"
digit_char (suc (suc (suc (suc zero)))) = "4"
digit_char (suc (suc (suc (suc (suc zero))))) = "5"
digit_char (suc (suc (suc (suc (suc (suc zero)))))) = "6"
digit_char (suc (suc (suc (suc (suc (suc (suc zero))))))) = "7"
digit_char (suc (suc (suc (suc (suc (suc (suc (suc zero)))))))) = "8"
digit_char _ = "9"

-- The digits of a number in front of a text; one round for each digit.
unfoldable pub decimal_rounds : ℕ → ℕ → String → String
decimal_rounds zero n acc = acc
decimal_rounds (suc f) n acc =
    let rest = decimal_rounds f (n / 10) (digit_char (n % 10) ∷ acc) in
    if ltb n 10 then digit_char n ∷ acc else rest

-- `str(n)`
unfoldable pub decimal : ℕ → String
unfolding decimal_rounds
decimal n = decimal_rounds (suc n) n []

-- What follows the first place where `p` stands.
unfoldable pub after_text : String → String → Option String
unfolding strip
after_text p [] = strip p []
after_text p (c ∷ s) = or_else (strip p (c ∷ s)) (after_text p s)

abbrev or_start : Bool → Char → Option String → Option String
or_start here c (some a) = some (c ∷ a)
or_start true c none = some []
or_start false c none = none

-- What precedes the last place where `p` stands.
unfoldable pub before_last_text : String → String → Option String
before_last_text p [] = if starts_with [] p then some [] else none
before_last_text p (c ∷ s) = or_start (starts_with (c ∷ s) p) c (before_last_text p s)

-- `c.lower()` of an ASCII character, as a number.
abbrev lower : Char → ℕ
lower c = if leb b'A' (code c) && leb (code c) b'Z' then code c + 32 else code c

-- `s.lower().startswith(part)`
unfoldable pub starts_with_lower : String → String → Bool
starts_with_lower [] s = true
starts_with_lower (d ∷ p) [] = false
starts_with_lower (d ∷ p) (c ∷ s) = lower c =? code d && starts_with_lower p s

-- `part in s.lower()`
unfoldable pub contains_lower : String → String → Bool
unfolding starts_with_lower
contains_lower part [] = starts_with_lower part []
contains_lower part (c ∷ s) = starts_with_lower part (c ∷ s) || contains_lower part s

-- `sep.join(parts)`
unfoldable pub join : String → List String → String
join sep List.[] = ""
join sep (List.◌∷◌ x List.[]) = x
join sep (List.◌∷◌ x (List.◌∷◌ y ys)) = x ++ (sep ++ join sep (List.◌∷◌ y ys))

quote_all : List String → List String
quote_all List.[] = List.[]
quote_all (List.◌∷◌ x xs) = List.◌∷◌ ("'" ++ (x ++ "'")) (quote_all xs)

-- `str(names)` of a list of texts with nothing to escape.
unfoldable pub repr_list : List String → String
unfolding join quote_all
repr_list xs = "[" ++ (join ", " (quote_all xs) ++ "]")

-- `s.replace(old, new)` for an `old` with a character. The number counts the characters that a match
-- still covers.
replace_from : String → String → ℕ → String → String
replace_from old new n [] = []
replace_from old new (suc n) (c ∷ s) = replace_from old new n s
replace_from old new zero (c ∷ s) = elim (starts_with (c ∷ s) old) [
  | true ↦ new ++ replace_from old new (count old - 1) s
  | false ↦ c ∷ replace_from old new zero s
]

unfoldable pub replace : String → String → String → String
unfolding replace_from
replace s old new = replace_from old new zero s

-- `s.lower() == key` for a `key` with no capital letter.
unfoldable pub lowers_to : String → String → Bool
lowers_to key [] = is_blank key
lowers_to [] (c ∷ s) = false
lowers_to (d ∷ key) (c ∷ s) = lower c =? code d && lowers_to key s

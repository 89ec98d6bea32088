-- ===== src/Prelude/Strings.antt =====
-- The functions of Go's `strings` and `strconv` that the program calls, on texts.
use Prim.Native.Nat.{ℕ, zero, suc, ◌+◌, ◌-◌, ◌*◌, ◌^◌}
use mathlib.Core.Bool.{Bool, true, false, ◌&&◌, ◌||◌}
use mathlib.Core.Option.{Option, none, some}
use mathlib.Core.List.{List, [], ◌∷◌, ◌++◌, map}
use message_queue.Prelude.Tests.{ltb, leb, ◌==◌, if◌then◌else◌}
use message_queue.Prelude.Int.{ℤ, pos, negsuc}
use message_queue.Prelude.Text.{Text, text_eq}

-- `unicode.IsSpace`.
unfoldable pub is_space : ℕ → Bool
is_space c =
    leb 9 c && leb c 13
    || c == 32
    || c == 0x85
    || c == 0xa0
    || c == 0x1680
    || leb 0x2000 c && leb c 0x200a
    || c == 0x2028
    || c == 0x2029
    || c == 0x202f
    || c == 0x205f
    || c == 0x3000

-- `strings.Split(s, sep)` for a separator of one character.
abbrev onto_first : ℕ → List Text → List Text
onto_first c [] = (c ∷ []) ∷ []
onto_first c (part ∷ parts) = (c ∷ part) ∷ parts

unfoldable pub split : ℕ → Text → List Text
split sep [] = [] ∷ []
split sep (c ∷ s) = let parts = split sep s in if c == sep then [] ∷ parts else onto_first c parts

-- A word is kept unless it is empty.
abbrev keep_word : Text → List Text → List Text
keep_word [] words = words
keep_word (c ∷ word) words = (c ∷ word) ∷ words

-- `strings.Fields(s)`; `word` is what was read of the current word.
unfoldable pub fields_loop : Text → Text → List Text
fields_loop word [] = keep_word word []
fields_loop word (c ∷ s) = elim (is_space c) [
  | true ↦ keep_word word (fields_loop [] s)
  | false ↦ fields_loop (word ++ (c ∷ [])) s
]

unfoldable pub fields : Text → List Text
fields s = fields_loop [] s

-- `strings.TrimSpace(s)`.
unfoldable pub trim_left : Text → Text
trim_left [] = []
trim_left (c ∷ s) = if is_space c then trim_left s else c ∷ s

-- A character in front of what is left of the text behind it.
abbrev before_trimmed : ℕ → Text → Text
before_trimmed c [] = if is_space c then [] else c ∷ []
before_trimmed c (d ∷ t) = c ∷ d ∷ t

unfoldable pub trim_right : Text → Text
trim_right [] = []
trim_right (c ∷ s) = before_trimmed c (trim_right s)

unfoldable pub trim_space : Text → Text
trim_space s = trim_right (trim_left s)

-- `strings.ToLower` on one character, exact where the result is ASCII: besides the capital letters,
-- U+0130 and U+212A have ASCII lower cases.
unfoldable pub lower_code : ℕ → ℕ
lower_code c =
    if leb b'A' c && leb c b'Z'
    then c + 32
    else if c == 0x130
    then b'i'
    else if c == 0x212a
    then b'k'
    else c

unfoldable pub to_lower : Text → Text
to_lower s = map lower_code s

-- The representative by which `strings.EqualFold` compares characters, exact where one of the two is
-- ASCII: U+017F folds to s and U+212A to k.
unfoldable pub fold_code : ℕ → ℕ
fold_code c =
    if leb b'A' c && leb c b'Z'
    then c + 32
    else if c == 0x17f
    then b's'
    else if c == 0x212a
    then b'k'
    else c

unfoldable pub equal_fold : Text → Text → Bool
equal_fold s t = text_eq (map fold_code s) (map fold_code t)

-- `strconv.Atoi`: a sign, then digits, within 64 bits. None stands for its error.
abbrev digit? : ℕ → Option ℕ
digit? c = if leb b'0' c && leb c b'9' then some (c - b'0') else none

unfoldable pub digits_value : ℕ → Text → Option ℕ
digits_value acc [] = some acc
digits_value acc (c ∷ s) = elim (digit? c) [ none ↦ none | some d ↦ digits_value (acc * 10 + d) s ]

unfoldable pub unsigned : Text → Option ℕ
unsigned [] = none
unsigned (c ∷ s) = digits_value 0 (c ∷ s)

abbrev positive : Option ℕ → Option ℤ
positive none = none
positive (some n) = if ltb n (2 ^ 63) then some (pos n) else none

abbrev negative : Option ℕ → Option ℤ
negative none = none
negative (some zero) = some (pos 0)
negative (some (suc n)) = if ltb n (2 ^ 63) then some (negsuc n) else none

unfoldable pub atoi : Text → Option ℤ
atoi [] = none
atoi (c ∷ s) =
    if c == b'-'
    then negative (unsigned s)
    else if c == b'+'
    then positive (unsigned s)
    else positive (unsigned (c ∷ s))

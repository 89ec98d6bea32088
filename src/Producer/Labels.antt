-- ===== src/Producer/Labels.antt =====
-- ParseLabels (internal/producer/transformers.go): key1="value1",key2="value2",…
pub mod Scanning
pub mod Printed
use message_queue.Prelude.{
  ℕ, ◌+◌, ◌-◌, ◌≡◌, refl, sym, ap, ◌∙◌, inl, inr, Bool, true, false, not, ◌&&◌, ◌||◌, Option, none,
  some, List, [], ◌∷◌, ◌++◌, append_assoc, append-nil, length, All, arith, leb, ◌==◌, if◌then◌else◌,
}
use message_queue.Prelude.Text.{Text, codes, is_empty}
use message_queue.Prelude.Dict.{Dict, put, get, IsDict, put-IsDict}
use message_queue.Prelude.Strings.{trim_space}

-- The state of the loop over the characters.
pub record Scan : Type 0 where
  pub parts : List Text
  pub current : Text
  pub in_quotes : Bool
  pub escaped : Bool

abbrev pub start : Scan
start = record { parts = []; current = []; in_quotes = false; escaped = false }

-- `current.WriteRune(ch)`.
abbrev written : Scan → ℕ → Scan
written s ch = record s { current = s.current ++ (ch ∷ []) }

-- One round, by the kind of the character.
pub scan_step : Scan → ℕ → Scan
scan_step s ch =
    if s.escaped
    then record (written s ch) { escaped = false }
    else if ch == 0x5c
    then record (written s ch) { escaped = true }
    else if ch == b'"'
    then record (written s ch) { in_quotes = not s.in_quotes }
    else if ch == b',' && not s.in_quotes
    then record s { parts = s.parts ++ (s.current ∷ []); current = [] }
    else written s ch

pub scan : Scan → Text → Scan
scan s [] = s
scan s (ch ∷ raw) = scan (scan_step s ch) raw

-- What was read after the last comma is a part of its own, unless it is empty.
abbrev finish : Scan → List Text
finish s = if is_empty s.current then s.parts else s.parts ++ (s.current ∷ [])

pub split_labels : Text → List Text
split_labels raw = finish (scan start raw)

-- The text in front of the first "=" and behind it (`strings.Index` and the two slices).
abbrev before_eq : ℕ → Option (Text × Text) → Option (Text × Text)
before_eq c none = none
before_eq c (some (key, val)) = some (c ∷ key, val)

pub cut_eq : Text → Option (Text × Text)
cut_eq [] = none
cut_eq (c ∷ s) = let more = before_eq c (cut_eq s) in if c == b'=' then some ([], s) else more

-- `val[1 : len(val)-1]` where the value starts and ends with a quote and has two characters at least.
abbrev unquote_end : Text → Text → Option Text
unquote_end acc [] = none
unquote_end acc (c ∷ []) = if c == b'"' then some acc else none
unquote_end acc (c ∷ d ∷ s) = unquote_end (acc ++ (c ∷ [])) (d ∷ s)

abbrev or_else : Text → Option Text → Text
or_else v none = v
or_else v (some w) = w

pub unquote : Text → Text
unquote [] = []
unquote (c ∷ s) = if c == b'"' then or_else (c ∷ s) (unquote_end [] s) else c ∷ s

pub add_label : Dict Text → Text → Dict Text
add_label labels part = elim (cut_eq (trim_space part)) [
  | none ↦ labels
  | some (key, val) ↦ put labels (trim_space key) (unquote (trim_space val))
]

pub add_labels : Dict Text → List Text → Dict Text
add_labels labels [] = labels
add_labels labels (part ∷ parts) = add_labels (add_label labels part) parts

pub parse_labels : Text → Dict Text
parse_labels raw = if is_empty raw then [] else add_labels [] (split_labels raw)

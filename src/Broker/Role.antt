-- ===== src/Broker/Role.antt =====
-- The first line of a connection, which says whether it is a producer's or a consumer's
-- (`HandleConn` and `trimLine` of internal/broker/broker.go).
use message_queue.Prelude.{
  ℕ, zero, suc, ◌+◌, ◌≤◌, ◌≡◌, refl, sym, ap, ◌∙◌, inl, inr, Bool, true, false, ◌||◌, Option, none,
  some, [], ◌∷◌, ◌++◌, append_assoc, append-nil, length, length-append, All, All-append, arith,
  ◌==◌, Bool-cases, Option-cases, if◌then◌else◌,
}
use message_queue.Prelude.Text.{Text, codes, text_eq}
use message_queue.Protocol.{Bytes, IoError, Source}

-- `br.ReadString('\n')`: the line with its newline, or the reader's error where no newline comes.
pub data LineRead : Type 0 where
  line : Bytes → Bytes → LineRead
  no_line : LineRead

abbrev cons_line : ℕ → LineRead → LineRead
cons_line c (line l rest) = line (c ∷ l) rest
cons_line c no_line = no_line

pub read_string : ℕ → Bytes → LineRead
read_string delim [] = no_line
read_string delim (c ∷ bs) =
    let more = cons_line c (read_string delim bs) in if c == delim then line (c ∷ []) bs else more

abbrev last? : Text → Option ℕ
last? [] = none
last? (c ∷ []) = some c
last? (c ∷ d ∷ s) = last? (d ∷ s)

abbrev drop_last : Text → Text
drop_last [] = []
drop_last (c ∷ []) = []
drop_last (c ∷ d ∷ s) = c ∷ drop_last (d ∷ s)

abbrev pub is_eol : ℕ → Bool
is_eol c = c == 13 || c == 10

-- `n` is the number of rounds at most.
trim_loop : ℕ → Text → Text
trim_loop zero s = s
trim_loop (suc n) s = elim (last? s) [
  | none ↦ s
  | some c ↦ let shorter = trim_loop n (drop_last s) in if is_eol c then shorter else s
]

-- Each round takes one character off, so `length s` rounds are enough.
pub trim_line : Text → Text
unfolding trim_loop
trim_line s = trim_loop (length s) s

pub data Role : Type 0 where
  producer consumer : Role
  unknown : Text → Role

pub role_of : Text → Role
role_of s =
    if text_eq s (codes "PRODUCER")
    then producer
    else if text_eq s (codes "CONSUMER")
    then consumer
    else unknown s

-- The role, and what the buffered reader still holds behind the line.
pub read_role : Source → Option (Role × Source)
read_role r = elim (read_string 10 r.pending) [
  | no_line ↦ none
  | line l rest ↦ some (role_of (trim_line l), record r { pending = rest })
]

-- The two lines that say a known role.
abbrev pub producer_line : Bytes
producer_line = codes "PRODUCER\n"

abbrev pub consumer_line : Bytes
consumer_line = codes "CONSUMER\n"

-- A connection that starts with a role's line has that role, and the reader is left behind the line.
pub read_role-known_line :
    (rest : Bytes) (e : IoError)
    → (read_role (record { pending = producer_line ++ rest; ending = e })
        ≡ some (producer, record { pending = rest; ending = e }))
      × (read_role (record { pending = consumer_line ++ rest; ending = e })
          ≡ some (consumer, record { pending = rest; ending = e }))
unfolding read_role read_string role_of trim_line trim_loop text_eq
read_role-known_line rest e = (refl, refl)

-- Taking the last character off and putting it back.
last_drop : (s : Text) (c : ℕ) → last? s ≡ some c → s ≡ drop_last s ++ (c ∷ [])
last_drop [] c h = cc
last_drop (d ∷ []) c h = ground arith
last_drop (d ∷ e ∷ s) c h = ap (◌∷◌ d) (last_drop (e ∷ s) c h)

length-drop_last : (s : Text) (c : ℕ) → last? s ≡ some c → length (drop_last s) + 1 ≡ length s
length-drop_last s c h =
    omega (arith, ap length (last_drop s c h), length-append (drop_last s) (c ∷ []))

abbrev NoEol : Option ℕ → Type 0
NoEol none = Unit {0}
NoEol (some c) = is_eol c ≡ false

abbrev IsEol : ℕ → Type 0
IsEol c = is_eol c ≡ true

pub record Trims (s t : Text) : Type 0 where
  pub tail : Text
  pub split : s ≡ t ++ tail
  pub eols : All IsEol tail
  pub clean : NoEol (last? t)

trim_loop-Trims : (n : ℕ) (s : Text) → length s ≤ n → Trims s (trim_loop n s)
unfolding trim_loop
trim_loop-Trims zero [] h = record { tail = []; split = refl; eols = tt; clean = tt }
trim_loop-Trims zero (c ∷ s) h = absurd (omega arith)
trim_loop-Trims (suc n) s h = elim (Option-cases (last? s)) [
  | inl e ↦
      rw (e, trim_loop)
        (record { tail = []; split = sym (append-nil s); eols = tt; clean = rw e tt })
  | inr (c, e) ↦
      rw (e, trim_loop)
        (elim (Bool-cases (is_eol c)) [
          | inl eol ↦
              let ih = trim_loop-Trims n (drop_last s) (omega (arith, length-drop_last s c e)) in
              rw eol (record {
                tail = ih.tail ++ (c ∷ []);
                split =
                    last_drop s c e
                    ∙ ap (λ (t : Text). t ++ (c ∷ [])) ih.split
                    ∙ append_assoc (trim_loop n (drop_last s)) ih.tail (c ∷ []);
                eols = All-append IsEol ih.tail (c ∷ []) ih.eols (eol, tt);
                clean = ih.clean;
              })
          | inr other ↦
              rw other
                (record { tail = []; split = sym (append-nil s); eols = tt; clean = rw e other })
        ])
]

-- `trimLine` takes off line ends only, and all of them: the text is the result followed by carriage
-- returns and newlines, and the result does not end in one.
trim_line-Trims : (s : Text) → Trims s (trim_line s)
unfolding trim_line
trim_line-Trims s = trim_loop-Trims (length s) s (omega arith)

-- ===== src/Producer/Labels/Printed.antt =====
-- Labels written as key="value", joined by commas, and read back.
use message_queue.Prelude.{
  ℕ, ◌≡◌, refl, ap, ◌∙◌, true, false, some, List, [], ◌∷◌, ◌++◌, append_assoc, append-nil, map, All,
  arith, ◌==◌,
}
use message_queue.Prelude.Text.{Text, is_empty}
use message_queue.Prelude.Dict.{Dict, put}
use message_queue.Prelude.Strings.{trim_space, is_space}
use message_queue.Prelude.Trim.{NotSpace, trim_space-enclosed, trim_space-solid}
use message_queue.Producer.Labels.{
  Scan, start, scan_step, scan, split_labels, cut_eq, unquote, unquote_end, finish, add_label,
  add_labels, parse_labels,
}

-- A character of a key.
pub record IsKeyChar (c : ℕ) : Type 0 where
  pub no_backslash : (c == 0x5c) ≡ false
  pub no_quote : (c == b'"') ≡ false
  pub no_comma : (c == b',') ≡ false
  pub no_equals : (c == b'=') ≡ false
  pub no_space : is_space c ≡ false

-- A character of a value: anything but a quote and a backslash.
pub record IsValueChar (c : ℕ) : Type 0 where
  pub no_backslash : (c == 0x5c) ≡ false
  pub no_quote : (c == b'"') ≡ false

abbrev pub Labels : Type 0
Labels = List (Text × Text)

abbrev pub AreLabels : Labels → Type 0
AreLabels = All (λ l. All IsKeyChar l.0 × All IsValueChar l.1)

-- `"value"`.
abbrev pub quoted : Text → Text
quoted v = b'"' ∷ (v ++ (b'"' ∷ []))

abbrev pub entry : Text × Text → Text
entry (k, v) = k ++ (b'=' ∷ quoted v)

abbrev pub print_labels : Labels → Text
print_labels [] = []
print_labels (l ∷ []) = entry l
print_labels (l ∷ m ∷ ls) = entry l ++ (b',' ∷ print_labels (m ∷ ls))

-- Later labels overwrite earlier ones with the same key.
abbrev pub put_all : Dict Text → Labels → Dict Text
put_all d [] = d
put_all d ((k, v) ∷ ls) = put_all (put d k v) ls

scan-append : (s : Scan) (xs ys : Text) → scan s (xs ++ ys) ≡ scan (scan s xs) ys
unfolding scan
scan-append s [] ys = refl
scan-append s (x ∷ xs) ys = scan-append (scan_step s x) xs ys

-- The state outside quotes, and inside.
abbrev outside : List Text → Text → Scan
outside parts current = record {
  parts = parts;
  current = current;
  in_quotes = false;
  escaped = false;
}

abbrev inside : List Text → Text → Scan
inside parts current = record {
  parts = parts;
  current = current;
  in_quotes = true;
  escaped = false;
}

module _ (parts : List Text) where
  scan-key :
      (current key : Text)
      → All IsKeyChar key
      → scan (outside parts current) key ≡ outside parts (current ++ key)
  unfolding scan scan_step
  scan-key current [] h = rw append-nil
  scan-key current (c ∷ key) h =
      let k = h.0 in
      rw (
        k.no_backslash,
        k.no_quote,
        k.no_comma,
        scan-key (current ++ (c ∷ [])) key h.1,
        append_assoc,
      )

  value_step :
      (current : Text) (c : ℕ)
      → IsValueChar c
      → scan_step (inside parts current) c ≡ inside parts (current ++ (c ∷ []))
  unfolding scan_step
  value_step current c h = ground arith

  scan-value :
      (current v : Text)
      → All IsValueChar v
      → scan (inside parts current) v ≡ inside parts (current ++ v)
  unfolding scan
  scan-value current [] h = rw append-nil
  scan-value current (c ∷ v) h =
      rw (value_step current c h.0, scan-value (current ++ (c ∷ [])) v h.1, append_assoc)

  opening :
      (current : Text) (rest : Text)
      → scan (outside parts current) (b'=' ∷ b'"' ∷ rest)
        ≡ scan (inside parts (current ++ (b'=' ∷ b'"' ∷ []))) rest
  unfolding scan scan_step
  opening current rest = rw append_assoc

  closing :
      (current : Text)
      → scan (inside parts current) (b'"' ∷ []) ≡ outside parts (current ++ (b'"' ∷ []))
  unfolding scan scan_step
  closing current = refl

  scan-entry :
      (k v : Text)
      → All IsKeyChar k
      → All IsValueChar v
      → scan (outside parts []) (entry (k, v)) ≡ outside parts (entry (k, v))
  scan-entry k v hk hv = rw (
    scan-append (outside parts []) k (b'=' ∷ quoted v),
    scan-key [] k hk,
    opening k (v ++ (b'"' ∷ [])),
    scan-append (inside parts (k ++ (b'=' ∷ b'"' ∷ []))) v (b'"' ∷ []),
    scan-value (k ++ (b'=' ∷ b'"' ∷ [])) v hv,
    closing ((k ++ (b'=' ∷ b'"' ∷ [])) ++ v),
    append_assoc (k ++ (b'=' ∷ b'"' ∷ [])) v (b'"' ∷ []),
    append_assoc k (b'=' ∷ b'"' ∷ []) (v ++ (b'"' ∷ [])),
  )

not_empty : (k : Text) (c : ℕ) (s : Text) → is_empty (k ++ (c ∷ s)) ≡ false
not_empty [] c s = refl
not_empty (d ∷ k) c s = refl

comma_step :
    (parts : List Text) (current rest : Text)
    → scan (outside parts current) (b',' ∷ rest) ≡ scan (outside (parts ++ (current ∷ [])) []) rest
unfolding scan scan_step
comma_step parts current rest = refl

scan-print_labels :
    (parts : List Text) (l : Text × Text) (ls : Labels)
    → AreLabels (l ∷ ls)
    → finish (scan (outside parts []) (print_labels (l ∷ ls))) ≡ parts ++ map entry (l ∷ ls)
scan-print_labels parts l [] h =
    rw (scan-entry parts l.0 l.1 h.0.0 h.0.1, not_empty l.0 b'=' (quoted l.1))
scan-print_labels parts l (m ∷ ls) h = rw (
  scan-append (outside parts []) (entry l) (b',' ∷ print_labels (m ∷ ls)),
  scan-entry parts l.0 l.1 h.0.0 h.0.1,
  comma_step parts (entry l) (print_labels (m ∷ ls)),
  scan-print_labels (parts ++ (entry l ∷ [])) m ls h.1,
  append_assoc parts (entry l ∷ []) (map entry (m ∷ ls)),
)

cut_eq-entry : (k x : Text) → All IsKeyChar k → cut_eq (k ++ (b'=' ∷ x)) ≡ some (k, x)
unfolding cut_eq
cut_eq-entry [] x h = refl
cut_eq-entry (c ∷ k) x h = let kc = h.0 in rw (kc.no_equals, cut_eq-entry k x h.1)

unquote_end-quoted : (acc v : Text) → unquote_end acc (v ++ (b'"' ∷ [])) ≡ some (acc ++ v)
unquote_end-quoted acc [] = rw append-nil
unquote_end-quoted acc (c ∷ []) = refl
unquote_end-quoted acc (c ∷ d ∷ v) = rw (unquote_end-quoted (acc ++ (c ∷ [])) (d ∷ v), append_assoc)

unquote-quoted : (v : Text) → unquote (quoted v) ≡ v
unfolding unquote
unquote-quoted v = rw (unquote_end-quoted [] v)

quote-NotSpace : NotSpace b'"'
unfolding is_space
quote-NotSpace = refl

equals-NotSpace : NotSpace b'='
unfolding is_space
equals-NotSpace = refl

solid_key : (k : Text) → All IsKeyChar k → All NotSpace k
solid_key [] h = tt
solid_key (c ∷ k) h = let kc = h.0 in (kc.no_space, solid_key k h.1)

trim_space-entry : (k v : Text) → All IsKeyChar k → trim_space (entry (k, v)) ≡ entry (k, v)
trim_space-entry [] v h = trim_space-enclosed b'=' (b'"' ∷ v) b'"' equals-NotSpace quote-NotSpace
trim_space-entry (c ∷ k) v h =
    let kc = h.0 in
    rw (← append_assoc k (b'=' ∷ b'"' ∷ v) (b'"' ∷ []))
      (trim_space-enclosed c (k ++ (b'=' ∷ b'"' ∷ v)) b'"' kc.no_space quote-NotSpace)

add_label-entry :
    (d : Dict Text) (k v : Text) → All IsKeyChar k → add_label d (entry (k, v)) ≡ put d k v
unfolding add_label
add_label-entry d k v h = rw (
  trim_space-entry k v h,
  add_label,
  cut_eq-entry k (quoted v) h,
  trim_space-solid k (solid_key k h),
  trim_space-enclosed b'"' v b'"' quote-NotSpace quote-NotSpace,
  unquote-quoted v,
)

add_labels-entries :
    (d : Dict Text) (ls : Labels) → AreLabels ls → add_labels d (map entry ls) ≡ put_all d ls
unfolding add_labels
add_labels-entries d [] h = refl
add_labels-entries d ((k, v) ∷ ls) h =
    ap (λ (e : Dict Text). add_labels e (map entry ls)) (add_label-entry d k v h.0.0)
    ∙ add_labels-entries (put d k v) ls h.1

parse_labels-not_empty :
    (raw : Text) → is_empty raw ≡ false → parse_labels raw ≡ add_labels [] (finish (scan start raw))
unfolding parse_labels split_labels
parse_labels-not_empty raw h = rw (h, parse_labels)

print_not_empty : (l : Text × Text) (ls : Labels) → is_empty (print_labels (l ∷ ls)) ≡ false
print_not_empty (k, v) [] = not_empty k b'=' (quoted v)
print_not_empty (k, v) (m ∷ ls) =
    rw (append_assoc k (b'=' ∷ quoted v) (b',' ∷ print_labels (m ∷ ls)))
      (not_empty k b'=' (quoted v ++ (b',' ∷ print_labels (m ∷ ls))))

-- Labels that are printed as key="value", joined by commas, are parsed back, for keys without
-- spaces, commas, quotes, backslashes and equals signs, and values without quotes and backslashes;
-- commas, equals signs and spaces in a value do no harm. Of labels with one key the last one counts.
pub parse_labels-print_labels :
    (ls : Labels) → AreLabels ls → parse_labels (print_labels ls) ≡ put_all [] ls
parse_labels-print_labels [] h = unfold parse_labels in refl
parse_labels-print_labels ((k, v) ∷ ls) h =
    parse_labels-not_empty (print_labels ((k, v) ∷ ls)) (print_not_empty (k, v) ls)
    ∙ ap (add_labels []) (scan-print_labels [] (k, v) ls h)
    ∙ add_labels-entries [] ((k, v) ∷ ls) h

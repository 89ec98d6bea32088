-- ===== src/Producer/Labels/Scanning.antt =====
-- The loop of `ParseLabels` that splits at the commas outside quotes.
use message_queue.Prelude.{
  ℕ, ◌≡◌, refl, sym, ◌∙◌, List, [], ◌∷◌, ◌++◌, append_assoc, append-nil, arith,
}
use message_queue.Prelude.Text.{Text}
use message_queue.Producer.Labels.{Scan, scan_step, scan}

-- The parts put together again, each with a comma behind it.
abbrev pub with_commas : List Text → Text
with_commas [] = []
with_commas (part ∷ parts) = part ++ (b',' ∷ with_commas parts)

with_commas-snoc :
    (parts : List Text) (p : Text)
    → with_commas (parts ++ (p ∷ [])) ≡ with_commas parts ++ (p ++ (b',' ∷ []))
with_commas-snoc [] p = refl
with_commas-snoc (q ∷ parts) p =
    rw (with_commas-snoc parts p)
      (sym (append_assoc q (b',' ∷ with_commas parts) (p ++ (b',' ∷ []))))

-- What the loop has read so far.
abbrev pub so_far : Scan → Text
so_far s = with_commas s.parts ++ s.current

scan_step-so_far : (s : Scan) (ch : ℕ) → so_far (scan_step s ch) ≡ so_far s ++ (ch ∷ [])
unfolding scan_step
scan_step-so_far s ch = ground (
  arith,
  with_commas-snoc s.parts s.current,
  append_assoc (with_commas s.parts) s.current (ch ∷ []),
  append-nil (with_commas (s.parts ++ (s.current ∷ []))),
)

-- No character is lost or added: the parts, with the commas at which the text was cut, are the text.
pub scan-so_far : (s : Scan) (raw : Text) → so_far (scan s raw) ≡ so_far s ++ raw
unfolding scan
scan-so_far s [] = sym (append-nil (so_far s))
scan-so_far s (ch ∷ raw) =
    scan-so_far (scan_step s ch) raw
    ∙ rw (scan_step-so_far s ch) (append_assoc (so_far s) (ch ∷ []) raw)

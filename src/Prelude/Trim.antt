-- ===== src/Prelude/Trim.antt =====
-- Texts that `strings.TrimSpace` leaves alone.
use Prim.Native.Nat.{ℕ}
use mathlib.Core.Path.{◌≡◌, refl}
use mathlib.Core.Bool.{false}
use mathlib.Core.List.{[], ◌∷◌, ◌++◌}
use message_queue.Prelude.Lists.{All}
use message_queue.Prelude.Text.{Text}
use message_queue.Prelude.Strings.{is_space, trim_left, trim_right, trim_space}

abbrev pub NotSpace : ℕ → Type 0
NotSpace c = is_space c ≡ false

trim_right-snoc : (s : Text) (q : ℕ) → NotSpace q → trim_right (s ++ (q ∷ [])) ≡ s ++ (q ∷ [])
unfolding trim_right
trim_right-snoc [] q h = rw h
trim_right-snoc (c ∷ []) q h = rw (trim_right-snoc [] q h)
trim_right-snoc (c ∷ d ∷ s) q h = rw (trim_right-snoc (d ∷ s) q h)

-- A text that starts and ends with something else than a space.
pub trim_space-enclosed :
    (p : ℕ) (s : Text) (q : ℕ)
    → NotSpace p
    → NotSpace q
    → trim_space (p ∷ (s ++ (q ∷ []))) ≡ p ∷ (s ++ (q ∷ []))
unfolding trim_space trim_left
trim_space-enclosed p s q h k = rw h (trim_right-snoc (p ∷ s) q k)

trim_right-solid : (s : Text) → All NotSpace s → trim_right s ≡ s
unfolding trim_right
trim_right-solid [] h = refl
trim_right-solid (c ∷ []) h = rw (h.0)
trim_right-solid (c ∷ d ∷ s) h = rw (trim_right-solid (d ∷ s) h.1)

-- A text without spaces.
pub trim_space-solid : (s : Text) → All NotSpace s → trim_space s ≡ s
unfolding trim_space trim_left
trim_space-solid [] h = trim_right-solid [] tt
trim_space-solid (c ∷ s) h = rw (h.0) (trim_right-solid (c ∷ s) h)

-- ===== src/Metrics/Handler/Path.antt =====
-- The identifier in the path of the telemetry endpoint.
use message_queue.Prelude.{ℕ, ◌≡◌, false, [], ◌∷◌, ◌++◌, All, ◌==◌, ==_self}
use message_queue.Prelude.Text.{Text, codes, text_eq}
use message_queue.Prelude.Strings.{split}
use message_queue.Metrics.Handler.{extract_gpu_id_from_path}

-- A text without the separator is one part.
split-part :
    (sep : ℕ) (part rest : Text)
    → All (λ c. (c == sep) ≡ false) part
    → split sep (part ++ (sep ∷ rest)) ≡ part ∷ split sep rest
unfolding split
split-part sep [] rest h = rw ==_self
split-part sep (c ∷ part) rest h = rw (h.0, split-part sep part rest h.1)

-- The path of the endpoint for an identifier.
abbrev pub telemetry_path : Text → Text
telemetry_path id = codes "/api/v1/gpus/" ++ (id ++ codes "/telemetry")

-- The identifier is read back from the path of its endpoint, whatever it is, if it has no slash.
pub extract-telemetry_path :
    (id : Text)
    → All (λ c. (c == b'/') ≡ false) id
    → extract_gpu_id_from_path (telemetry_path id) ≡ id
unfolding extract_gpu_id_from_path split text_eq
extract-telemetry_path id h = rw (split-part b'/' id (codes "telemetry") h)

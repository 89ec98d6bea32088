-- ===== src/Broker/Mode.antt =====
-- DeliveryMode of internal/broker/interfaces.go.
use message_queue.Prelude.{ℕ, ◌≡◌, refl, if◌then◌else◌}
use message_queue.Prelude.Text.{Text, codes, text_eq}

-- `other` stands for the integers that no constant names.
pub data DeliveryMode : Type 0 where
  broadcast queue : DeliveryMode
  other : ℕ → DeliveryMode

pub to_string : DeliveryMode → Text
to_string broadcast = codes "broadcast"
to_string queue = codes "queue"
to_string (other n) = codes "unknown"

pub parse_delivery_mode : Text → DeliveryMode
parse_delivery_mode s =
    if text_eq s (codes "queue")
    then queue
    else if text_eq s (codes "broadcast")
    then broadcast
    else broadcast

-- Printing a mode and parsing it gives the mode back, but for unnamed integers, which give `broadcast`.
parse_delivery_mode-to_string :
    (m : DeliveryMode)
    → parse_delivery_mode (to_string m)
      ≡ elim m [ broadcast ↦ broadcast | queue ↦ queue | other n ↦ broadcast ]
unfolding parse_delivery_mode to_string text_eq
parse_delivery_mode-to_string broadcast = refl
parse_delivery_mode-to_string queue = refl
parse_delivery_mode-to_string (other n) = refl

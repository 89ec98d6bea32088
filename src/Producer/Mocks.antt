-- ===== src/Producer/Mocks.antt =====
-- The test doubles of internal/producer/mocks.go. Their locks make each call one step.
use message_queue.Prelude.{
  ◌≡◌, refl, ◌∙◌, Bool, true, false, Option, none, some, List, [], ◌∷◌, ◌++◌, append-nil,
  append_assoc, if◌then◌else◌,
}
use message_queue.Prelude.Text.{Text}

pub record MockLogger : Type 0 where
  pub logs : List Text
  pub fatals : List Text

pub new_mock_logger : MockLogger
new_mock_logger = record { logs = []; fatals = [] }

-- The format alone is kept.
pub logf : MockLogger → Text → MockLogger
logf l format = record l { logs = l.logs ++ (format ∷ []) }

-- Like `Logf`: the caller is not stopped.
pub fatalf : MockLogger → Text → MockLogger
fatalf l format = record l { fatals = l.fatals ++ (format ∷ []) }

pub record SimpleError : Type 0 where
  pub msg : Text

pub new_error : Text → SimpleError
new_error msg = record { msg = msg }

pub error : SimpleError → Text
error e = e.msg

pub record MockMessageWriter (M : Type 0) : Type 0 where
  pub messages : List M
  pub should_error : Bool
  pub error_msg : Text

-- What a test does to the writer.
pub data Use (M : Type 0) : Type 0 where
  writes : M → Use M
  sets_error : Bool → Text → Use M

module _ {M : Type 0} where
  pub new_mock_message_writer : MockMessageWriter M
  new_mock_message_writer = record { messages = []; should_error = false; error_msg = [] }

  pub write : MockMessageWriter M → M → MockMessageWriter M × Option SimpleError
  write w msg =
      if w.should_error
      then (w, some (new_error w.error_msg))
      else (record w { messages = w.messages ++ (msg ∷ []) }, none)

  pub set_error : MockMessageWriter M → Bool → Text → MockMessageWriter M
  set_error w enabled msg = record w { should_error = enabled; error_msg = msg }

  abbrev use_all : MockMessageWriter M → List (Use M) → MockMessageWriter M
  use_all w [] = w
  use_all w (writes m ∷ uses) = use_all (write w m).0 uses
  use_all w (sets_error b msg ∷ uses) = use_all (set_error w b msg) uses

  -- The messages that are written while errors are off.
  abbrev kept : Bool → List (Use M) → List M
  kept b [] = []
  kept true (writes m ∷ uses) = kept true uses
  kept false (writes m ∷ uses) = m ∷ kept false uses
  kept b (sets_error c msg ∷ uses) = kept c uses

  -- Over any sequence of calls, the writer holds the messages that were written while errors were
  -- off, in their order.
  messages-kept :
      (uses : List (Use M)) (w : MockMessageWriter M) (b : Bool)
      → w.should_error ≡ b
      → (use_all w uses).messages ≡ w.messages ++ kept b uses
  unfolding write set_error
  messages-kept [] w b h = rw (append-nil w.messages)
  messages-kept (writes m ∷ uses) w true h =
      rw h (messages-kept uses (record w { should_error = true }) true refl)
  messages-kept (writes m ∷ uses) w false h = rw h (
      messages-kept uses (record w { messages = w.messages ++ (m ∷ []); should_error = false })
        false refl
      ∙ append_assoc w.messages (m ∷ []) (kept false uses))
  messages-kept (sets_error c msg ∷ uses) w b h = messages-kept uses (set_error w c msg) c refl

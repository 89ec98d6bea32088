-- ===== src/Message.antt =====
-- internal/message/message.go: the message and its JSON form. JSON text is left to encoding/json; a
-- message is turned into the members of an object here, and read from them.
pub mod RoundTrip
use message_queue.Prelude.{
  ℕ, ◌≡◌, refl, Bool, true, false, Option, none, some, List, [], ◌∷◌, arith, if◌then◌else◌,
}
use message_queue.Prelude.Text.{Text, codes, is_empty}
use message_queue.Prelude.Dict.{Dict}
use message_queue.Prelude.Strings.{equal_fold}

-- A JSON value: a string, null, or any other, of which the message code looks at nothing.
pub data Json (J : Type 0) : Type 0 where
  string : Text → Json J
  null : Json J
  value : J → Json J

abbrev pub Members : Type 0 → Type 0
Members J = Dict (Json J)

-- `time.Time` with `Format` and `Parse` for RFC3339Nano, and the zero time.
pub record TimeFormat (Time : Type 0) : Type 0 where
  pub zero_time : Time
  pub format : Time → Text
  pub parse : Text → Option Time

-- `payload` is none for a nil json.RawMessage.
pub record Message (J Time : Type 0) : Type 0 where
  pub id : Text
  pub typ : Text
  pub payload : Option (Json J)
  pub timestamp : Time
  pub source : Text

-- `var msg message.Message`.
abbrev pub zero_message : {J Time : Type 0} → TimeFormat Time → Message J Time
zero_message tf = record {
  id = [];
  typ = [];
  payload = none;
  timestamp = tf.zero_time;
  source = [];
}

-- The member `source` is left out where it is empty.
abbrev pub source_member : {J : Type 0} → Text → Members J → Members J
source_member source rest = if is_empty source then rest else (codes "source", string source) ∷ rest

-- A nil json.RawMessage is written as null.
abbrev pub payload_member : {J : Type 0} → Option (Json J) → Json J
payload_member none = null
payload_member (some j) = j

-- A string member: null leaves the field alone, and a value that is no string is an error.
abbrev string_field : {J : Type 0} → Json J → Text → Option Text
string_field (string s) old = some s
string_field null old = some old
string_field (value j) old = none

-- `m.Timestamp, _ = time.Parse(…)`: a time that does not parse becomes the zero time.
abbrev parsed_time : {Time : Type 0} → TimeFormat Time → Option Time → Time
parsed_time tf none = tf.zero_time
parsed_time tf (some t) = t

infixl 5 ◌>>=◌
abbrev ◌>>=◌ {ℓ κ} : {A : Type ℓ} {B : Type κ} → Option A → (A → Option B) → Option B
none >>= f = none
some a >>= f = f a

module _ {J Time : Type 0} where
  -- `New`; `id` is the random identifier, `now` the current time.
  unfoldable pub new : Text → Time → Text → Json J → Text → Message J Time
  new id now typ payload source = record {
    id = id;
    typ = typ;
    payload = some payload;
    timestamp = now;
    source = source;
  }

  pub marshal_json : TimeFormat Time → Message J Time → Members J
  marshal_json tf m =
      (codes "id", string m.id)
      ∷ (codes "type", string m.typ)
      ∷ (codes "payload", payload_member m.payload)
      ∷ source_member m.source ((codes "timestamp", string (tf.format m.timestamp)) ∷ [])

  -- One member, read into the message `m` and the text of its time. A name is matched in any case of
  -- its letters, a member of the type json.RawMessage takes any value, and a name that is none of the
  -- fields' is passed over.
  unfoldable pub set_member : Message J Time × Text → Text → Json J → Option (Message J Time × Text)
  set_member (m, time_text) name j =
      if equal_fold name (codes "id")
      then (string_field j m.id >>= λ s. some (record m { id = s }, time_text))
      else if equal_fold name (codes "type")
      then (string_field j m.typ >>= λ s. some (record m { typ = s }, time_text))
      else if equal_fold name (codes "payload")
      then some (record m { payload = some j }, time_text)
      else if equal_fold name (codes "source")
      then (string_field j m.source >>= λ s. some (record m { source = s }, time_text))
      else if equal_fold name (codes "timestamp")
      then (string_field j time_text >>= λ s. some (m, s))
      else some (m, time_text)

  -- All members in their order, so the last one of a name counts.
  unfoldable pub read_members : Members J → Message J Time × Text → Option (Message J Time × Text)
  read_members [] a = some a
  read_members ((name, j) ∷ o) a = set_member a name j >>= λ a'. read_members o a'

  -- The members are read into the message `m`; none stands for an error.
  pub unmarshal_json : TimeFormat Time → Message J Time → Members J → Option (Message J Time)
  unmarshal_json tf m o = do
    a ← read_members o (m, [])
    some (record a.0 {
      timestamp = if is_empty a.1 then a.0.timestamp else parsed_time tf (tf.parse a.1);
    })

-- ===== src/Message/RoundTrip.antt =====
-- Messages that are marshalled and unmarshalled.
use message_queue.Prelude.{◌≡◌, false, some, if◌then◌else◌, inl, inr, Bool-cases}
use message_queue.Prelude.Text.{text_eq, is_empty}
use message_queue.Prelude.Strings.{equal_fold, fold_code}
use message_queue.Message.{
  TimeFormat, Message, payload_member, marshal_json, set_member, read_members, unmarshal_json,
}

-- What `time.Time` is relied on for: a time that was formatted is parsed back, and its text is not
-- empty.
pub record Parses {Time : Type 0} (tf : TimeFormat Time) (t : Time) : Type 0 where
  pub parse_format : tf.parse (tf.format t) ≡ some t
  pub some_text : is_empty (tf.format t) ≡ false

module _ {J Time : Type 0} (tf : TimeFormat Time) (m old : Message J Time) where
  -- If the format of its time is parsed back and is not empty, unmarshalling what was marshalled
  -- gives the message back, with two exceptions: a nil payload comes back as the JSON value null,
  -- and an empty source leaves the source that the message had into which it is read.
  pub unmarshal_json-marshal_json :
      Parses tf m.timestamp
      → unmarshal_json tf old (marshal_json tf m)
        ≡ some (record m {
          payload = some (payload_member m.payload);
          source = if is_empty m.source then old.source else m.source;
        })
  unfolding unmarshal_json marshal_json set_member read_members equal_fold fold_code text_eq
  unmarshal_json-marshal_json p = elim (Bool-cases (is_empty m.source)) [
    | inl no_source ↦ rw (no_source, p.some_text, p.parse_format)
    | inr has_source ↦ rw (has_source, p.some_text, p.parse_format)
  ]

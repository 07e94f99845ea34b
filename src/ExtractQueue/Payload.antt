-- ===== src/ExtractQueue/Payload.antt =====
-- What is queued: a text, or turns with their roles (enfold/extraction_spans.py:
-- normalize_transcript, the checks of transcript_spans; enfold/extract_queue.py: _payload_hash and
-- the first half of enqueue). SHA-256 and the JSON encoder are parameters.
use Prim.Native.String
use holographic_plus.Base.{
  ℕ, String, Bool, true, false, not, ◌&&◌, ◌||◌, List, [], ◌∷◌, leb, str_eq, is_empty, strip,
  concat, utf8_tail, all, Result, ok, raise, value_error, require, ◌>>◌, if◌then◌else◌, ◌*◌,
}

pub record Turn : Type 0 where
  pub role : String
  pub content : String

pub data Transcript : Type 0 where
  text : String → Transcript
  turns : List Turn → Transcript

abbrev pub max_payload_bytes : ℕ
max_payload_bytes = 12 * 1024

unfoldable pub is_transcript_role : String → Bool
is_transcript_role role = str_eq role "user" || str_eq role "assistant" || str_eq role "tool"

unfoldable pub valid_turn : Turn → Bool
unfolding is_transcript_role
valid_turn turn = is_transcript_role turn.role && not (is_empty (strip turn.content))

-- The checks that `transcript_spans` makes of role-structured turns.
unfoldable pub check_turns : List Turn → Result (Unit {0})
unfolding valid_turn
check_turns [] = raise value_error
check_turns (turn ∷ rest) = require (all valid_turn (turn ∷ rest)) value_error

-- What the standard library computes for the queue.
pub record Codec : Type 0 where
  pub sha256 : String → String
  pub json_turns : List Turn → String

-- The payload as it is stored, and whether its turns have roles.
pub record Prepared : Type 0 where
  pub payload : String
  pub role_structured : Bool

module _ (codec : Codec) where
  open codec use {sha256, json_turns}

  unfoldable pub payload_hash : Bool → String → String
  payload_hash role_structured payload =
      sha256 (if role_structured then concat "role-structured-v1\0" payload else payload)

  unfoldable pub prepare : Transcript → Result Prepared
  prepare (text payload) =
      let cut = utf8_tail max_payload_bytes payload in
      ok (record {
        payload = if leb (String.len payload) max_payload_bytes then payload else cut;
        role_structured = false;
      })
  prepare (turns given) = do
    check_turns given
    let payload = json_turns given
    require (leb (String.len payload) max_payload_bytes) value_error
    ok (record { payload = payload; role_structured = true })

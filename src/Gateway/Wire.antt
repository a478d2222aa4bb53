-- ===== src/Gateway/Wire.antt =====
-- souk_server/ws_common.py: the frame plumbing of both sockets. An ASGI message is its type and its
-- text; `loads` stands for `json.loads` and is `none` where that raises `JSONDecodeError`. A frame
-- is the dict that goes through `json.dumps`.
pub mod Writer
use agent_souk_server.Base.{
  ℕ, String, ◌==◌, eq_iff, ◌≡◌, ap, Bool, true, false, Option, none, some, if◌then◌else◌,
}
use agent_souk_server.Base.Json.{
  pos, Json, null, bool, int, float, str, arr, obj, Fields, end, field, get,
}

pub record Message : Type 0 where
  pub kind : String
  pub text : Option String

-- What a wait under a deadline gives.
pub data Received : Type 0 where
  timed_out : Received
  arrived : Message → Received

pub record Close : Type 0 where
  pub code : ℕ
  pub reason : String

abbrev pub policy_violation : ℕ
policy_violation = 1008

-- `v == s` for a text s
abbrev pub equals_str : Json → String → Bool
equals_str (str t) s = t == s
equals_str _ s = false

unfoldable pub close_frame : ℕ → String → Fields
close_frame code reason =
    field "type" (str "_close") (field "code" (int (pos code)) (field "reason" (str reason) end))

abbrev pub error_frame : String → Fields
error_frame message = field "type" (str "error") (field "message" (str message) end)

abbrev as_dict : Json → Option Fields
as_dict (obj fs) = some fs
as_dict _ = none

-- The first frame, or how the socket ended without one.
pub data Hello : Type 0 where
  gone : Hello
  closed : Close → Hello
  greeted : Fields → String → Hello

abbrev refuse : String → Hello
refuse reason = closed (record { code = policy_violation; reason = reason })

module _ (loads : String → Option Json) where
  abbrev pub parse_text : Option String → Option Fields
  parse_text none = none
  parse_text (some text) = elim (loads text) [ none ↦ none | some v ↦ as_dict v ]

  unfoldable pub parse_frame : Message → Option Fields
  parse_frame m = parse_text m.text

  abbrev first_frame : Option Fields → Option String → Hello
  first_frame none text = refuse "first frame must be hello"
  first_frame (some fs) none = refuse "first frame must be hello"
  first_frame (some fs) (some text) =
      if equals_str (get "type" fs) "hello"
      then greeted fs text
      else refuse "first frame must be hello"

  unfoldable pub receive_hello : Received → Hello
  unfolding parse_frame
  receive_hello timed_out = refuse "no hello frame"
  receive_hello (arrived m) =
      if m.kind == "websocket.disconnect" then gone else first_frame (parse_frame m) m.text

  unfoldable pub receive_frame : Received → Option Fields
  unfolding parse_frame
  receive_frame timed_out = none
  receive_frame (arrived m) = if m.kind == "websocket.disconnect" then none else parse_frame m

pub equals_str-eq : (v : Json) (s : String) → equals_str v s ≡ true → v ≡ str s
equals_str-eq (str t) s h = ap str ((eq_iff t s).0 h)
equals_str-eq null s h = cc
equals_str-eq (bool b) s h = cc
equals_str-eq (int i) s h = cc
equals_str-eq (float x) s h = cc
equals_str-eq (arr xs) s h = cc
equals_str-eq (obj fs) s h = cc

-- ===== src/Executables/Context.antt =====
-- `Context` of executables.py: staged mail and children, with no power to commit. `identity` is the
-- digest of a list of texts (`_identity`).

use entourage.Prelude.{
  String, ◌+++◌, Option, none, some, List, [], ◌∷◌, ◌++◌, Bool, true, false, ◌==◌, not, Result,
  returns, raises, ◌>>=◌, ◌>>◌, require,
}
use entourage.Mail.{Json, Event}
use entourage.Mail.Json.{obj}
use entourage.Sessions.Types.{Spawn, Instant}
use entourage.Sessions.Checkpoint.{Proposal}
use entourage.Executables.Types.{Context, Failure, value_error, key_error}

abbrev pub is_object : Json → Bool
is_object (obj fields) = true
is_object _ = false

-- `request["request_id"]` and `request["reply_to"]` of an event.
abbrev pub required : Option String → Result Failure String
required none = raises key_error
required (some s) = returns s

module _ (identity : List String → String) where
  abbrev pub mail_id : Context → String → String
  mail_id c key = "mail:" +++ identity (c.session_id ∷ key ∷ [])

  abbrev pub mail : Context → Json → String → String → Option String → Event
  mail c payload key kind request_id = record {
    event_id = some (mail_id c key);
    kind = some kind;
    source = some c.session_id;
    request_id = request_id;
    reply_to = none;
    payload = payload;
  }

  abbrev pub stage_mail : Context → String → Event → Context
  stage_mail c destination e = record c {
    publish = c.publish ++ record { session_id = destination; event = e } ∷ [];
  }

  unfoldable pub send :
      Context → String → Json → String → String → Option String → Result Failure (Context × String)
  send c destination payload key kind request_id = do
    require (not (key == "")) value_error
    returns (stage_mail c destination (mail c payload key kind request_id), mail_id c key)

  -- `request`: the event carries its own id as the request's, and where to reply.
  unfoldable pub request : Context → String → Json → String → Result Failure (Context × String)
  request c destination payload key = do
    require (not (key == "")) value_error
    let e = mail c payload key "request" (some (mail_id c key))
    returns (stage_mail c destination (record e { reply_to = some c.session_id }), mail_id c key)

  unfoldable pub reply : Context → Event → Json → String → Result Failure (Context × String)
  reply c asked payload key = do
    request_id ← required asked.request_id
    reply_to ← required asked.reply_to
    let key' = "reply:" +++ identity (request_id ∷ key ∷ [])
    send c reply_to payload key' "result" (some request_id)

  unfoldable pub spawn : Context → String → Json → String → Result Failure (Context × String)
  spawn c definition state key = do
    require (not (key == "")) value_error
    require (is_object state) value_error
    let child = c.session_id +++ (":" +++ key)
    let s : Spawn = record { session_id = child; executable = definition; state = state }
    returns (record c { spawn = c.spawn ++ s ∷ [] }, child)

unfoldable pub propose :
    Context → Json → List String → Option Instant → Bool → Option String → Proposal
propose c state incorporated deadline complete rebind = record {
  state = state;
  incorporated = incorporated;
  publish = c.publish;
  deadline = deadline;
  complete = complete;
  spawn = c.spawn;
  rebind = rebind;
}

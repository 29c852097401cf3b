-- ===== src/Chat/Types.antt =====
-- The records of turn.py and deferred_tools.py. The model, the tools, the JSON text format, Python's
-- texts for values and the clock are read from outside.
use entourage.Prelude.{
  ℕ, String, ◌+++◌, Option, none, some, List, [], ◌∷◌, Bool, ◌&&◌, ◌||◌, not, ◌==◌, Dict, Result,
  returns, ◌>>◌, ◌>>=◌, require, is_empty, any, if◌then◌else◌,
}
use entourage.Mail.{Json, Event}
use entourage.Sessions.Types.{Instant}
use entourage.Executables.Context.{required}
use entourage.Executables.Types.{Context, Failure, value_error}
use entourage.Panel.Ingest.{Entries}

-- A tool call of the model: `arguments` is JSON text.
pub record Call : Type 0 where
  pub id : String
  pub name : String
  pub arguments : String

pub record Message : Type 0 where
  pub role : String
  pub content : Json
  pub tool_call_id : Option String
  pub name : Option String
  pub tool_calls : List Call

pub record Job : Type 0 where
  pub status : String
  pub request_id : String
  pub reply_to : String

-- The state of the session; `panel.closed` is not part of what is saved.
pub record Chat : Type 0 where
  pub messages : List Message
  pub panel : Entries
  pub work : Option Job
  pub deferred : List Message
  pub buffered : List Message

-- An exception of a tool: its type's name and its text.
pub record Raised : Type 0 where
  pub type : String
  pub text : String

-- What a tool returns: a text, `Pending`, or another JSON value.
pub data Returned : Type 0 where
  text : String → Returned
  pending : String → Json → Returned
  value : Json → Returned

pub record Tool : Type 0 where
  pub name : String
  pub schema : Json
  pub execute : Json → Result Raised Returned

pub record Pipe : Type 0 where
  pub name : String
  pub definition : String
  pub description : String
  pub modes : List String
  pub budget : Option ℕ
  pub interruptible : Bool
  pub grants : List String

pub data Prompt : Type 0 where
  fixed : String → Prompt
  computed : (Context → Chat → Result Failure String) → Prompt

-- `complete` returns a message, or something else.
pub record Agent : Type 0 where
  pub complete : List Message → List Json → Result Failure (Option Message)
  pub tools : Dict Tool
  pub pipes : Dict Pipe
  pub schemas : List Json
  pub system_prompt : Option Prompt
  pub output : Option String

-- The digest of a list of texts, `str` and `repr` of a value, the JSON parser and printer, and the
-- clock: when the waits are swept, and when the call with an id is run.
pub record Outside : Type 0 where
  pub identity : List String → String
  pub shown : Json → String
  pub quoted : Option Json → String
  pub loads : String → Result Failure Json
  pub dumps : Json → String
  pub now : ℕ
  pub at_call : String → ℕ

-- What is given to `Context.propose`, with the state as a record.
pub record Proposed {ℓ} (S : Type ℓ) : Type ℓ where
  pub state : S
  pub context : Context
  pub incorporated : List String
  pub deadline : Option Instant
  pub complete : Bool

-- `[event["event_id"] for event in mail]`.
abbrev pub event_ids : List Event → Result Failure (List String)
event_ids [] = returns []
event_ids (e ∷ es) = do id ← required e.event_id; ids ← event_ids es; returns (id ∷ ids)

abbrev pub texts : List String → String
texts [] = ""
texts (t ∷ []) = t
texts (t ∷ ts) = t +++ texts ts

abbrev pub message : String → Json → Message
message role content = record {
  role = role;
  content = content;
  tool_call_id = none;
  name = none;
  tool_calls = [];
}

abbrev pub tool_message : Option String → String → Json → Message
tool_message tool_call_id name content = record {
  role = "tool";
  content = content;
  tool_call_id = tool_call_id;
  name = some name;
  tool_calls = [];
}

abbrev is_mode : String → Bool
is_mode m = m == "wait" || m == "connected"

abbrev default_description : String → String
default_description definition = "Delegate a task to " +++ (definition +++ ".")

abbrev description_or : Option String → String → String
description_or none definition = default_description definition
description_or (some d) definition = if d == "" then default_description definition else d

-- `Pipe.__init__`.
unfoldable pub new_pipe :
    String
    → String
    → Option String
    → List String
    → Option ℕ
    → Bool
    → List String
    → Result Failure Pipe
new_pipe name definition description modes budget interruptible grants = do
  require (not (is_empty modes) && not (any (λ m. not (is_mode m)) modes)) value_error
  returns (record {
    name = name;
    definition = definition;
    description = description_or description definition;
    modes = modes;
    budget = budget;
    interruptible = interruptible;
    grants = grants;
  })

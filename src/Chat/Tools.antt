-- ===== src/Chat/Tools.antt =====
-- Running one tool, and the provider of lifted tools (deferred_tools.py).
use entourage.Prelude.{
  String, ◌+++◌, Option, none, some, List, [], ◌∷◌, Bool, true, false, ◌&&◌, ◌==◌, if◌then◌else◌,
  Dict, lookup, Result, returns, raises, ◌>>=◌, ◌>>◌, require,
}
use entourage.Mail.{Json, Event, get}
use entourage.Mail.Json.{str}
use entourage.Executables.Types.{Context, Failure, value_error, key_error}
use entourage.Executables.Context as Staged
use entourage.Executables.Context.{required}
use entourage.Panel.Ingest.{plain}
use entourage.Sessions.Checkpoint.{text_eq}
use entourage.Chat.Types.{Tool, Outside, Proposed, event_ids, text, pending, value, texts}
use entourage.Chat.Schemas.{object, item}

-- The outcome of a tool: a text, or a request for a provider session.
pub data Content : Type 0 where
  final : String → Content
  deferred : String → Json → Content

-- `Lifted.execute`.
abbrev pub lifted : Tool → String → Tool
lifted tool runner = record tool {
  execute = λ arguments.
      returns
        (pending runner (object (item "name" (str tool.name) ∷ item "arguments" arguments ∷ [])));
}

module _ (env : Outside) where
  unfoldable pub run_tool : Dict Tool → String → Json → Content
  run_tool tools name arguments = elim (lookup name tools) [
    | none ↦ final ("Tool error: unknown tool " +++ env.quoted (some (str name)))
    | some tool ↦ elim (tool.execute arguments) [
      | raises e ↦ final (texts ("Tool error (" ∷ e.type ∷ "): " ∷ e.text ∷ []))
      | returns (text t) ↦ final t
      | returns (pending definition payload) ↦ deferred definition payload
      | returns (value j) ↦ final (env.dumps j)
    ]
  ]

-- The state of a `ToolRunner` session.
pub record Running : Type 0 where
  pub status : String
  pub request : Event

abbrev is_timer : Event → Bool
is_timer e = text_eq e.kind "system" && text_eq e.source "timer"

abbrev accept_one : Option Running → Event → String → Result Failure (Option Running)
accept_one none e kind =
    if kind == "request"
    then returns (some (record { status = "working"; request = e }))
    else require (is_timer e) value_error >> returns none
accept_one (some w) e kind = require (is_timer e) value_error >> returns (some w)

-- The events of a delivery: one request at most, besides the timer's.
unfoldable pub accept : Option Running → List Event → Result Failure (Option Running)
accept work [] = returns work
accept work (e ∷ mail) = do
  kind ← required e.kind
  work' ← accept_one work e kind
  accept work' mail

-- `payload["name"]`, a text, and `payload["arguments"]`.
abbrev needed : String → Json → Result Failure Json
needed key payload = elim (get key payload) [ none ↦ raises key_error | some j ↦ returns j ]

abbrev result_text : Content → String
result_text (final t) = t
result_text (deferred definition payload) =
    "Tool error: a lifted tool must return a final result, not Pending"

module _ (env : Outside) where
  -- `ToolRunner.resume`.
  unfoldable pub resume :
      Dict Tool → Context → Option Running → List Event → Result Failure (Proposed (Option Running))
  resume tools c work mail = do
    work' ← accept work mail
    done ← event_ids mail
    elim (if c.has_more then none else work') [
      | none ↦ returns (record {
        state = work';
        context = c;
        incorporated = done;
        deadline = none;
        complete = false;
      })
      | some w ↦ do
        name ← needed "name" w.request.payload
        arguments ← needed "arguments" w.request.payload
        let answer = result_text (run_tool env tools (plain env.shown name) arguments)
        (c', id) ←
            Staged.reply env.identity c w.request (object (item "text" (str answer) ∷ [])) "result"
        returns (record {
          state = some (record w { status = "completed" });
          context = c';
          incorporated = done;
          deadline = none;
          complete = true;
        })
    ]

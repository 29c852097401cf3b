-- ===== src/Chat/Calls.antt =====
-- The tool calls of one model reply: delegation, controls, questions to the caller and plain tools
-- (`_run_call`, `_delegate`, `_control` of turn.py).
use entourage.Prelude.{
  ℕ, zero, suc, ◌+◌, String, ◌+++◌, Option, none, some, List, [], ◌∷◌, ◌++◌, Bool, false, ◌&&◌,
  ◌||◌, ◌==◌, if◌then◌else◌, Dict, Entry, lookup, change, Result, returns, raises, ◌>>=◌, ◌>>◌,
  require, is_some, mem_text, any, absent_or,
}
use entourage.Mail.{truthy, Json, get}
use entourage.Mail.Json.{str, arr}
use entourage.Mail.Items.{nil}
use entourage.Executables.Types.{Context, Failure, value_error, key_error, type_error}
use entourage.Executables.Context as Staged
use entourage.Executables.Context.{is_object}
use entourage.Panel as Table
use entourage.Panel.{Work}
use entourage.Chat.Types.{Agent, Call, Chat, Job, Message, Pipe, Outside, texts, tool_message}
use entourage.Chat.Schemas.{object, item, panel_tools}
use entourage.Chat.Tools.{Content, final, deferred, run_tool}
use entourage.Chat.Inbox.{job_of, with_table, defer, named}

-- `arguments["text"]`.
abbrev pub argument : String → Json → Result Failure Json
argument key arguments = elim (get key arguments) [ none ↦ raises key_error | some j ↦ returns j ]

-- A call of the panel, whose exceptions are the handler's.
abbrev pub panel_call {ℓ} : {A : Type ℓ} → Result Table.Error A → Result Failure A
panel_call (returns a) = returns a
panel_call (raises Table.value_error) = raises value_error
panel_call (raises Table.key_error) = raises key_error

abbrev pub say : Chat → Message → Chat
say c m = record c { messages = c.messages ++ m ∷ [] }

abbrev pub first_mode : List String → String
first_mode [] = ""
first_mode (m ∷ ms) = m

-- `self.clock() + pipe.budget if mode == "wait" and pipe.budget else None`.
abbrev pub until_of : ℕ → String → Option ℕ → Option ℕ
until_of now mode none = none
until_of now mode (some zero) = none
until_of now mode (some (suc n)) = if mode == "wait" then some (now + suc n) else none

abbrev pub chosen_mode : Pipe → Json → String
chosen_mode p arguments =
    let background : Bool = elim (get "background" arguments) [
      | none ↦ first_mode p.modes == "connected"
      | some b ↦ truthy b
    ] in
    let mode = if background then "connected" else "wait" in
    if mem_text mode p.modes then mode else first_mode p.modes

abbrev pub text_payload : Json → Json
text_payload t = object (item "text" t ∷ [])

-- `Panel.find` of the value of an argument.
abbrev pub find_argument : Dict Work → Option Json → Option (String × Work)
find_argument table (some (str work)) = Table.find_work table work
find_argument table _ = none

abbrev pub offered : Agent → String → Bool
offered agent name =
    is_some (lookup name panel_tools)
    && any (λ (e : Entry Pipe). mem_text name e.value.grants) agent.pipes

abbrev pub started : Call → Pipe → String → Message
started call p work = tool_message (some call.id) p.name (
    str (
      texts
        ("started as work " ∷ work ∷ " (" ∷ p.name ∷ "); the result arrives as a message" ∷ [])))

abbrev pub without_controls : Work → Work
without_controls w = record w { grants = some [] }

-- The call that a cancelled wait held open gets its result.
abbrev pub release_call : Chat → Work → Chat
release_call c w = if w.mode == "wait" then defer c w (str (named w +++ " cancelled")) else c

module _ (env : Outside) where
  -- `Panel.open`: a child and its request, and the entry of the table.
  unfoldable pub open_panel :
      Context
      → Chat
      → String
      → Json
      → Json
      → Call
      → String
      → String
      → Option ℕ
      → Bool
      → Result Failure (Context × Chat × String × String)
  open_panel x c definition child_state payload call label mode until interruptible = do
    require (mode == "wait" || mode == "connected") value_error
    (x₁, child) ← Staged.spawn env.identity x definition child_state call.id
    (x₂, request_id) ← Staged.request env.identity x₁ child payload call.id
    table ← panel_call (
        Table.open_work c.panel.table child request_id label mode (some call.id) until
          interruptible)
    returns (x₂, with_table c table, request_id, child)

  -- `_delegate`.
  unfoldable pub delegate : Context → Chat → Call → Pipe → Json → Result Failure (Context × Chat)
  delegate x c call pipe arguments = do
    require (is_object arguments) type_error
    task ← argument "task" arguments
    let mode = chosen_mode pipe arguments
    (x', c', request_id, work) ←
        open_panel x c pipe.definition (object (item "messages" (arr nil) ∷ [])) (text_payload task)
          call pipe.name mode (until_of (env.at_call call.id) mode pipe.budget) pipe.interruptible
    returns (x', if mode == "connected" then say c' (started call pipe work) else c')

  abbrev no_such_work : Option Json → String
  no_such_work work = "Tool error: no such work " +++ env.quoted work

  -- What one control does to an entry, and tells the model.
  abbrev pub steer_work :
      Context → Chat → Call → Json → String → Work → Result Failure (Context × Chat × String)
  steer_work x c call arguments id w = do
    t ← argument "text" arguments
    (to, table) ← panel_call (Table.steer c.panel.table id)
    (x', event_id) ← Staged.send env.identity x to (text_payload t) call.id "steer" (some id)
    returns (x', with_table c table, "steered work " +++ w.to)

  abbrev pub send_answer :
      Context → Chat → Call → Json → String → Work → Result Failure (Context × Chat × String)
  send_answer x c call arguments id w = do
    t ← argument "text" arguments
    (to, table) ← panel_call (Table.answer c.panel.table id)
    (x', event_id) ← Staged.send env.identity x to (text_payload t) call.id "answer" (some id)
    returns (x', with_table c table, "answered work " +++ w.to)

  abbrev pub answer_work :
      Context → Chat → Call → Json → String → Work → Result Failure (Context × Chat × String)
  answer_work x c call arguments id w =
      if w.status == "input_required"
      then send_answer x c call arguments id w
      else returns (x, c, texts ("Tool error: work " ∷ w.to ∷ " asked nothing" ∷ []))

  abbrev pub send_cancel :
      Context → Chat → Call → String → Work → Result Failure (Context × Chat × String)
  send_cancel x c call id w = do
    (to, table) ← panel_call (Table.cancel c.panel.table id)
    (x', event_id) ← Staged.send env.identity x to (object []) call.id "cancel" (some id)
    returns (x', release_call (with_table c table) w, "cancelled work " +++ w.to)

  abbrev pub cancel_work :
      Context → Chat → Call → String → Work → Result Failure (Context × Chat × String)
  cancel_work x c call id w =
      if w.status == "cancelled"
      then returns (x, c, texts ("work " ∷ w.to ∷ " is already cancelled" ∷ []))
      else send_cancel x c call id w

  -- The controls of an entry that is there.
  unfoldable pub control_entry :
      Context
      → Chat
      → Call
      → String
      → Json
      → String
      → Work
      → Result Failure (Context × Chat × String)
  control_entry x c call name arguments id w =
      if name == "steer"
      then steer_work x c call arguments id w
      else if name == "answer"
      then answer_work x c call arguments id w
      else cancel_work x c call id w

  -- `_control`.
  unfoldable pub control :
      Context → Chat → Call → String → Json → Result Failure (Context × Chat × String)
  control x c call name arguments = do
    require (is_object arguments) type_error
    elim (find_argument c.panel.table (get "work" arguments)) [
      | none ↦ returns (x, c, no_such_work (get "work" arguments))
      | some (id, w) ↦
          if absent_or (mem_text name) w.grants
          then control_entry x c call name arguments id w
          else returns (x, c, texts ("Tool error: work " ∷ w.to ∷ " does not support " ∷ name ∷ []))
    ]

  -- `_run_tool` and what follows it: a text, or a provider session under strict await.
  unfoldable pub conclude : Context → Chat → Call → Content → Result Failure (Context × Chat × Bool)
  conclude x c call (final t) =
      returns (x, say c (tool_message (some call.id) call.name (str t)), call.name == "ask_caller")
  conclude x c call (deferred definition payload) = do
    (x', c', id, child) ←
        open_panel x c definition (object []) payload call call.name "wait" none false
    returns (x', with_table c' (change id without_controls c'.panel.table), false)

  abbrev pub ask_job : Context → Chat → Call → Json → Job → Result Failure (Context × Chat × Bool)
  ask_job x c call arguments j = do
    t ← argument "text" arguments
    (x', event_id) ←
        Staged.send env.identity x j.reply_to (text_payload t) call.id "ask" (some j.request_id)
    conclude x' (record c { work = some (record j { status = "input_required" }) }) call
        (final "asked; the answer arrives as a message")

  -- What a call that is neither a pipe's nor a control comes to.
  abbrev pub ask_or_run :
      Agent → Context → Chat → Call → Json → Option Job → Result Failure (Context × Chat × Bool)
  ask_or_run agent x c call arguments none =
      conclude x c call (run_tool env agent.tools call.name arguments)
  ask_or_run agent x c call arguments (some j) =
      if call.name == "ask_caller"
      then ask_job x c call arguments j
      else conclude x c call (run_tool env agent.tools call.name arguments)

  -- `_run_call`; the Boolean says that the caller was asked a question.
  unfoldable pub run_call : Agent → Context → Chat → Call → Result Failure (Context × Chat × Bool)
  run_call agent x c call = do
    arguments ← env.loads (if call.arguments == "" then "{}" else call.arguments)
    elim (lookup call.name agent.pipes) [
      | some pipe ↦ do (x', c') ← delegate x c call pipe arguments; returns (x', c', false)
      | none ↦
          if offered agent call.name
          then (do
            (x', c', t) ← control x c call call.name arguments
            conclude x' c' call (final t))
          else ask_or_run agent x c call arguments (job_of c)
    ]

  -- The loop of `_turn` over the calls.
  unfoldable pub run_calls :
      Agent → Context → Chat → List Call → Bool → Result Failure (Context × Chat × Bool)
  run_calls agent x c [] asked = returns (x, c, asked)
  run_calls agent x c (call ∷ calls) asked = do
    (x', c', more) ← run_call agent x c call
    run_calls agent x' c' calls (asked || more)

-- ===== src/Chat/Tests.antt =====
-- A chat agent with a tool and a pipe to a worker, over small deliveries.
use entourage.Prelude.{
  inr, ◌+++◌, String, Option, none, some, List, [], ◌∷◌, Bool, true, false, ◌==◌, ◌≡◌, refl, Dict,
  assign, lookup, change, pop, update, select, decimal, Result, returns, raises, map,
}
use entourage.Mail.{Json, Event, get}
use entourage.Sessions.Types.{Instant, at}
use entourage.Mail.Json.{null, str}
use entourage.Executables.Types.{Context, Failure}
use entourage.Executables.Context as Staged
use entourage.Exchanges as Base
use entourage.Exchanges.{Reply, matched, reply_of, reply_kinds}
use entourage.Panel as Table
use entourage.Panel.{Work, waiting, due, next_deadline, new_work}
use entourage.Panel.Ingest as Replies
use entourage.Panel.Ingest.{Entries, pending_of, entry_of, change_entry, close_all, noted, note_all}
use entourage.Chat.Types.{
  Agent, Chat, Message, Outside, Pipe, Tool, Proposed, text, message, new_pipe,
}
use entourage.Chat.Schemas.{new_agent, object, item}
use entourage.Chat.Tools.{run_tool}
use entourage.Chat.Inbox.{
  deliver, detach_all, flush, sweep, settle, fold_entry, fold_all, settle_failed, take_failure,
  take_one,
}
use entourage.Chat.Calls.{
  open_panel, delegate, control, control_entry, conclude, run_call, run_calls,
}
use entourage.Chat.Turn.{
  ensure_system_prompt, finish, answer_turn, after_reply, turn, proceed, take_all, resume,
}
use entourage.Chat.Keeps.{said}
use entourage.Chat.Keeps.Mail.{resume_keeps_messages}
use entourage.Chat.Parks.{with_model, resume_parks, cancelled_work_is_silent}

-- Opening this opens the agent.
machine : Outside → Agent → Context → Chat → List Event → Result Failure (Proposed Chat)
unfolding get lookup assign change pop update select decimal Staged.send Staged.request Staged.reply
    Staged.spawn Base.ingest matched waiting due next_deadline Table.open_work Table.find_work
    Table.change_work Table.steer Table.answer Table.cancel Table.fail Table.fail_all Replies.ingest
    entry_of change_entry close_all noted note_all run_tool deliver detach_all flush sweep settle
    fold_entry fold_all settle_failed take_failure take_one open_panel delegate control
    control_entry conclude run_call run_calls ensure_system_prompt finish answer_turn after_reply
    turn proceed take_all resume
machine = resume

abbrev joined : List String → String
joined [] = ""
joined (t ∷ ts) = t +++ ("," +++ joined ts)

abbrev env : Outside
env = record {
  identity = joined;
  shown = λ j. "value";
  quoted = λ j. "value";
  loads = λ t. returns (object (item "task" (str "look it up") ∷ []));
  dumps = λ j. "value";
  now = 100;
  at_call = λ id. 100;
}

abbrev answering : List Message → List Json → Result Failure (Option Message)
answering messages schemas = returns (some (message "assistant" (str "hello")))

abbrev calling : String → List Message → List Json → Result Failure (Option Message)
calling name messages schemas = returns (
    some (record (message "assistant" null) {
      tool_calls = record { id = "k1"; name = name; arguments = "{}" } ∷ [];
    }))

abbrev looks : Tool
looks = record { name = "look"; schema = null; execute = λ j. returns (text "found") }

abbrev worker : Pipe
worker = record {
  name = "work";
  definition = "worker:v1";
  description = "Delegate a task to worker:v1.";
  modes = "wait" ∷ "connected" ∷ [];
  budget = some 50;
  interruptible = true;
  grants = "cancel" ∷ [];
}

made :
    new_pipe "work" "worker:v1" none ("wait" ∷ "connected" ∷ []) (some 50) true ("cancel" ∷ [])
    ≡ returns worker
unfolding new_pipe
made = refl

abbrev agent : (List Message → List Json → Result Failure (Option Message)) → Agent
agent complete = new_agent complete (looks ∷ []) none (some "user") (worker ∷ [])

abbrev context : Bool → Context
context has_more = record {
  session_id = "boss";
  definition = "chat:v1";
  upgrading_from = none;
  attempt = 1;
  last_error = none;
  activation_id = "a1";
  config = null;
  has_more = has_more;
  publish = [];
  spawn = [];
}

abbrev chat : Dict Work → List Message → Chat
chat table messages = record {
  messages = messages;
  panel = record { table = table; closed = [] };
  work = none;
  deferred = [];
  buffered = [];
}

abbrev user_mail : Event
user_mail = record {
  event_id = some "u1";
  kind = some "user";
  source = some "user";
  request_id = none;
  reply_to = none;
  payload = object (item "text" (str "hi") ∷ []);
}

abbrev late_result : Event
late_result = record {
  event_id = some "w1";
  kind = some "result";
  source = some "boss:k0";
  request_id = some "r0";
  reply_to = none;
  payload = object (item "text" (str "done") ∷ []);
}

abbrev parked : Proposed Chat
parked = record {
  state = chat [] (message "user" (str "hi") ∷ []);
  context = context true;
  incorporated = "u1" ∷ [];
  deadline = none;
  complete = false;
}

parks : resume env (agent answering) (context true) (chat [] []) (user_mail ∷ []) ≡ returns parked
unfolding machine
parks = refl

abbrev is_user : Message → Bool
is_user m = m.role == "user"

user_text : get "text" user_mail.payload ≡ some (str "hi")
unfolding get
user_text = refl

resume_keeps_messages_example : said is_user parked.state ≡ true
resume_keeps_messages_example =
    resume_keeps_messages env is_user (agent answering) (context true) (chat [] []) [] [] user_mail
      "user" (str "hi") parked parks refl refl refl user_text refl

resume_parks_example :
    resume env
      (with_model (agent answering) (calling "work"))
      (context true)
      (chat [] [])
      (user_mail ∷ [])
    ≡ resume env (agent answering) (context true) (chat [] []) (user_mail ∷ [])
resume_parks_example =
    resume_parks env (agent answering) (calling "work") (context true) (chat [] []) (user_mail ∷ [])
      refl

abbrev given_up : Dict Work
given_up =
    assign "r0"
      (record (new_work "boss:k0" "work" "connected" (some "k0") none true) {
        status = "cancelled";
      })
      []

here :
    lookup "r0" given_up
    ≡ some (record (new_work "boss:k0" "work" "connected" (some "k0") none true) {
      status = "cancelled";
    })
unfolding lookup assign
here = refl

-- The reply that the late result is.
abbrev late_reply : Reply
late_reply =
    reply_of late_result "result" "r0"
      (pending_of (new_work "boss:k0" "work" "connected" (some "k0") none true))

cancelled_work_is_silent_example :
    (entries : Entries) × (Replies.ingest env.shown (late_result ∷ []) given_up
      ≡ returns (late_reply ∷ [], [], entries))
    × (fold_all env (late_reply ∷ []) (record (chat given_up []) { panel = entries })
        ≡ returns (record (chat given_up []) { panel = entries }))
cancelled_work_is_silent_example =
    cancelled_work_is_silent env (chat given_up []) late_result "r0" "result" _ here refl refl refl
      refl refl (inr refl)

-- What an activation proposes.
abbrev messages_of : Result Failure (Proposed Chat) → List Message
messages_of (returns q) = q.state.messages
messages_of (raises e) = []

abbrev roles_of : List Message → List String
roles_of ms = map (λ (m : Message). m.role) ms

abbrev deadline_of : Result Failure (Proposed Chat) → Option Instant
deadline_of (returns q) = q.deadline
deadline_of (raises e) = none

abbrev woken :
    (List Message → List Json → Result Failure (Option Message)) → Result Failure (Proposed Chat)
woken complete = resume env (agent complete) (context false) (chat [] []) (user_mail ∷ [])

-- A tool runs inline, and the session wakes at once.
tool_runs :
    (roles_of (messages_of (woken (calling "look"))) ≡ "user" ∷ "assistant" ∷ "tool" ∷ [])
    × (deadline_of (woken (calling "look")) ≡ some (at 0))
unfolding machine
tool_runs = (refl, refl)

-- A wait holds its tool call open, until the budget has passed.
wait_holds :
    (roles_of (messages_of (woken (calling "work"))) ≡ "user" ∷ "assistant" ∷ [])
    × (deadline_of (woken (calling "work")) ≡ some (at 150))
unfolding machine
wait_holds = (refl, refl)

-- A question without a caller is an unknown tool's call, after which the session does not wake.
asks_nobody :
    (roles_of (messages_of (woken (calling "ask_caller"))) ≡ "user" ∷ "assistant" ∷ "tool" ∷ [])
    × (deadline_of (woken (calling "ask_caller")) ≡ none)
unfolding machine
asks_nobody = (refl, refl)

abbrev held : Dict Work
held = assign "r0" (new_work "boss:k0" "work" "wait" (some "k0") none true) []

abbrev early_question : Event
early_question = record late_result { kind = some "ask" }

-- A question and the result in one delivery give the held call two results.
answered_twice :
    map
      (λ (m : Message). m.tool_call_id)
      (messages_of (
        resume env
          (agent answering)
          (context true)
          (chat held [])
          (early_question ∷ late_result ∷ [])))
    ≡ some "k0" ∷ some "k0" ∷ []
unfolding machine
answered_twice = refl

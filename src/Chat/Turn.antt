-- ===== src/Chat/Turn.antt =====
-- One activation of the chat agent (`resume` and `_turn` of turn.py).
use entourage.Prelude.{
  ℕ, String, ◌+++◌, Option, none, some, List, [], ◌∷◌, ◌++◌, Bool, true, false, ◌&&◌, ◌||◌, not,
  ◌==◌, if◌then◌else◌, length, decimal, Result, returns, raises, ◌>>=◌, is_some, is_empty,
}
use entourage.Mail.{Json, Event, truthy}
use entourage.Mail.Json.{null, str}
use entourage.Sessions.Types.{Instant, at}
use entourage.Executables.Types.{Context, Failure, type_error, key_error}
use entourage.Executables.Context as Staged
use entourage.Panel.{waiting, due, next_deadline}
use entourage.Panel.Ingest as Replies
use entourage.Panel.Ingest.{Entries}
use entourage.Chat.Types.{
  Agent, Chat, Job, Message, Outside, Prompt, fixed, computed, Proposed, event_ids, message,
}
use entourage.Chat.Schemas.{object, item, ask_tool}
use entourage.Chat.Inbox.{job_of, fold_all, take_one, goes_on, cancelled, sweep, flush}
use entourage.Chat.Calls.{run_calls}

abbrev pub role_of_last : List Message → Option String
role_of_last [] = none
role_of_last (m ∷ []) = some m.role
role_of_last (m ∷ ms) = role_of_last ms

abbrev pub starts_with_system : List Message → Bool
starts_with_system [] = false
starts_with_system (m ∷ ms) = m.role == "system"

abbrev pub instant_of : Option ℕ → Option Instant
instant_of none = none
instant_of (some t) = some (at t)

-- `context.propose(state, ...)`: the entries that left the table are not saved.
abbrev pub proposed : Context → Chat → List String → Option Instant → Proposed Chat
proposed x c ids deadline = record {
  state = record c { panel = record { table = c.panel.table; closed = [] } };
  context = x;
  incorporated = ids;
  deadline = deadline;
  complete = false;
}

-- The request of a job, as `Context.reply` reads it.
abbrev pub request_of : Job → Event
request_of j = record {
  event_id = none;
  kind = none;
  source = none;
  request_id = some j.request_id;
  reply_to = some j.reply_to;
  payload = null;
}

abbrev pub prompt_of : Prompt → Context → Chat → Result Failure String
prompt_of (fixed t) x c = returns t
prompt_of (computed f) x c = f x c

-- `_ensure_system_prompt`.
unfoldable pub ensure_system_prompt : Agent → Context → Chat → Result Failure Chat
ensure_system_prompt agent x c = elim agent.system_prompt [
  | none ↦ returns c
  | some prompt ↦ if starts_with_system c.messages then returns c else (do
    t ← prompt_of prompt x c
    returns (record c { messages = message "system" (str t) ∷ c.messages }))
]

-- What the model returned must be an assistant's message.
abbrev pub assistant : Option Message → Result Failure Message
assistant none = raises type_error
assistant (some m) = if m.role == "assistant" then returns m else raises type_error

-- When to look again after tools ran: `NOW` is the origin.
abbrev pub wake_after : Chat → Bool → Option Instant
wake_after c asked =
    if not (is_empty (waiting c.panel.table))
    then instant_of (next_deadline c.panel.table)
    else if asked
    then none
    else some (at 0)

abbrev pub content_or : Json → Json
content_or j = if truthy j then j else str ""

abbrev pub is_asking : Chat → Bool
is_asking c = elim (job_of c) [ none ↦ false | some j ↦ j.status == "input_required" ]

abbrev pub is_role : Option String → String → Bool
is_role none role = false
is_role (some r) role = r == role

-- Whether the model has something to answer.
abbrev pub has_turn : Chat → Bool
has_turn c =
    is_role (role_of_last c.messages) "user"
    || is_role (role_of_last c.messages) "tool" && not (is_asking c)

module _ (env : Outside) where
  -- `_finish`.
  unfoldable pub finish :
      Context → Chat → List String → Json → String → Result Failure (Proposed Chat)
  finish x c ids content status = elim c.work [
    | none ↦ raises key_error
    | some j ↦ do
      (x', event_id) ←
          Staged.reply env.identity x (request_of j)
            (object (item "text" content ∷ item "status" (str status) ∷ [])) "result"
      let c' = record c { work = some (record j { status = status }) }
      returns (record (proposed x' c' ids none) { complete = true })
  ]

  -- The answer of a turn without tool calls, after it joined the messages.
  unfoldable pub answer_turn :
      Agent → Context → Chat → List String → Json → Result Failure (Proposed Chat)
  answer_turn agent x c ids content = elim (job_of c) [
    | some j ↦ finish x c ids content "completed"
    | none ↦ elim agent.output [
      | none ↦ returns (proposed x c ids none)
      | some address ↦ do
        (x', event_id) ←
            Staged.send env.identity x address (object (item "text" content ∷ []))
              ("answer:" +++ decimal (length c.messages)) "message" none
        returns (proposed x' c ids none)
    ]
  ]

  -- `_turn` after the model's reply.
  unfoldable pub after_reply :
      Agent → Context → Chat → List String → Message → Result Failure (Proposed Chat)
  after_reply agent x c ids m =
      let c' = record c { messages = c.messages ++ m ∷ [] } in
      elim m.tool_calls [
        | [] ↦ answer_turn agent x c' ids (content_or m.content)
        | call ∷ calls ↦ do
          (x', c'', asked) ← run_calls env agent x c' (call ∷ calls) false
          returns (proposed x' c'' ids (wake_after c'' asked))
      ]

  -- `_turn`.
  unfoldable pub turn : Agent → Context → Chat → List String → Result Failure (Proposed Chat)
  turn agent x c ids = do
    c' ← ensure_system_prompt agent x c
    answered ←
        agent.complete c'.messages
          (agent.schemas ++ (if is_some (job_of c') then ask_tool ∷ [] else []))
    m ← assistant answered
    after_reply agent x c' ids m

  -- `resume` from the sweep of the waits on.
  unfoldable pub proceed : Agent → Context → Chat → List String → Result Failure (Proposed Chat)
  proceed agent x c ids =
      let c' = flush (sweep (due c.panel.table env.now) c) in
      if x.has_more
      then returns (proposed x c' ids none)
      else if not (is_empty (waiting c'.panel.table))
      then returns (proposed x c' ids (instant_of (next_deadline c'.panel.table)))
      else if has_turn c'
      then turn agent x c' ids
      else returns (proposed x c' ids none)

  -- The loop over the mail that is no reply, and what follows it.
  unfoldable pub take_all :
      Agent → Context → Chat → List String → List Event → Result Failure (Proposed Chat)
  take_all agent x c ids [] = proceed agent x c ids
  take_all agent x c ids (e ∷ es) = do
    taken ← take_one env c e
    elim taken [
      | cancelled ↦ finish x c ids (str "") "cancelled"
      | goes_on c' ↦ take_all agent x c' ids es
    ]

  -- `ChatAgent.resume`.
  unfoldable pub resume : Agent → Context → Chat → List Event → Result Failure (Proposed Chat)
  resume agent x c mail = do
    ids ← event_ids mail
    (replies, others, entries) ← Replies.ingest env.shown mail c.panel.table
    c' ← fold_all env replies (record c { panel = entries })
    take_all agent x c' ids others

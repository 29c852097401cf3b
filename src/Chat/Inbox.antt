-- ===== src/Chat/Inbox.antt =====
-- Ingestion of mail by the chat agent (`resume` of turn.py down to `_flush`): replies are folded in,
-- messages queued, waits swept, and what is ready joins the conversation.
use entourage.Prelude.{
  String, Option, none, some, List, [], ◌∷◌, ◌++◌, Bool, ◌&&◌, ◌||◌, not, ◌==◌, if◌then◌else◌, Dict,
  Entry, lookup, change, Result, returns, raises, ◌>>=◌, is_some, is_empty, mem_text,
}
use entourage.Mail.{Json, Event, get, truthy}
use entourage.Mail.Json.{null, str, obj}
use entourage.Sessions.Checkpoint.{text_eq}
use entourage.Executables.Types.{Failure, value_error, key_error, type_error, attribute_error}
use entourage.Executables.Context.{required}
use entourage.Exchanges.{Reply}
use entourage.Panel as Table
use entourage.Panel.{Work, waiting, connect}
use entourage.Panel.Ingest.{entry_of, plain, payload_get}
use entourage.Chat.Types.{Chat, Job, Message, Outside, texts, message, tool_message}

-- `_job`: the job that is not over.
abbrev pub job_of : Chat → Option Job
job_of c = elim c.work [
  | none ↦ none
  | some j ↦ if j.status == "working" || j.status == "input_required" then some j else none
]

abbrev pub with_table : Chat → Dict Work → Chat
with_table c table = record c { panel = record c.panel { table = table } }

-- `_defer`.
abbrev pub defer : Chat → Work → Json → Chat
defer c w content = record c {
  deferred = c.deferred ++ tool_message w.tool_call_id w.label content ∷ [];
}

abbrev pub still_running : Work → Json
still_running w = str (
    texts (
      "still running as work " ∷ w.to ∷ " (" ∷ w.label ∷ "); the result arrives as a message" ∷ []))

-- A wait that ends with its work still running.
abbrev pub detach : Chat → String → Work → Chat
detach c id w = defer (with_table c (change id connect c.panel.table)) w (still_running w)

-- The loop of `_deliver` over the waits.
unfoldable pub detach_all : Dict Work → Chat → Chat
detach_all [] c = c
detach_all (e ∷ es) c = detach_all es (if e.value.interruptible then detach c e.key e.value else c)

-- `_deliver`.
unfoldable pub deliver : Chat → Message → Chat
deliver c m =
    let c' = detach_all (waiting c.panel.table) c in record c' { buffered = c'.buffered ++ m ∷ [] }

-- `_flush`.
unfoldable pub flush : Chat → Chat
flush c =
    if is_empty (waiting c.panel.table)
    then record c {
      messages = c.messages ++ c.deferred ++ c.buffered;
      deferred = [];
      buffered = [];
    }
    else c

-- The loop over the waits that are due.
unfoldable pub sweep : List String → Chat → Chat
sweep [] c = c
sweep (id ∷ ids) c =
    sweep ids (elim (lookup id c.panel.table) [ none ↦ c | some w ↦ detach c id w ])

-- `event["payload"]["text"]`: a missing payload, which is `null`, is a missing key, and what is no
-- object cannot be read by a key.
abbrev pub payload_item : String → Json → Result Failure Json
payload_item key (obj fields) = elim (get key (obj fields)) [
  | none ↦ raises key_error
  | some t ↦ returns t
]
payload_item key null = raises key_error
payload_item key _ = raises type_error

abbrev pub text_of_mail : Event → Result Failure Json
text_of_mail e = payload_item "text" e.payload

-- `event.get("payload", {}).get("failed")`.
abbrev pub failed_of : Json → Result Failure (Option Json)
failed_of (obj fields) = returns (get "failed" (obj fields))
failed_of null = returns none
failed_of _ = raises attribute_error

abbrev pub text_or_empty : Option Json → Json
text_or_empty none = str ""
text_or_empty (some t) = if truthy t then t else str ""

-- `(payload or {}).get("text") or ""`.
abbrev pub reply_text : Json → Result Failure Json
reply_text payload = do t ← payload_get "text" payload; returns (text_or_empty t)

abbrev pub named : Work → String
named w = texts ("work " ∷ w.to ∷ " (" ∷ w.label ∷ ")" ∷ [])

abbrev pub is_message : String → Bool
is_message kind = mem_text kind ("user" ∷ "message" ∷ "steer" ∷ "answer" ∷ [])

-- What a mail that is no reply comes to: the chat goes on, or its job is cancelled.
pub data Taken : Type 0 where
  goes_on : Chat → Taken
  cancelled : Taken

abbrev pub take_message : Chat → Event → Result Failure Taken
take_message c e = do t ← text_of_mail e; returns (goes_on (deliver c (message "user" t)))

abbrev pub take_request : Chat → Event → Result Failure Taken
take_request c e = do
  request_id ← required e.request_id
  reply_to ← required e.reply_to
  take_message
      (record c {
        work = some (record { status = "working"; request_id = request_id; reply_to = reply_to });
      })
      e

abbrev pub failed_text : Work → Json
failed_text w = str (texts (named w ∷ " failed" ∷ []))

module _ (env : Outside) where
  -- `_settle`.
  unfoldable pub settle : Chat → String → Work → Json → Chat
  settle c id w content =
      if w.mode == "wait"
      then defer
          (if is_some (lookup id c.panel.table) && not (w.status == "completed")
            then with_table c (change id connect c.panel.table)
            else c)
          w content
      else deliver c (message "user" (str (texts ("[" ∷ plain env.shown content ∷ "]" ∷ []))))

  abbrev asks : Work → Json → Json
  asks w t = str (
      texts (
        named w
        ∷ " asks: "
        ∷ plain env.shown t
        ∷ " (reply with answer, work="
        ∷ env.quoted (some (str w.to))
        ∷ ")"
        ∷ []))

  abbrev outcome : Work → Json → Json
  outcome w t =
      if w.mode == "connected" || not (w.status == "completed")
      then str (texts (named w ∷ " " ∷ w.status ∷ ": " ∷ plain env.shown t ∷ []))
      else t

  -- `_fold` once the text is read, for a reply whose entry is `w`.
  abbrev pub fold_text : Chat → Reply → Work → Json → Chat
  fold_text c r w t =
      if w.fenced || r.kind == "progress"
      then c
      else if r.kind == "ask"
      then settle c r.request_id w (asks w t)
      else settle c r.request_id w (outcome w t)

  -- `_fold`: the text is read before the fence is looked at.
  unfoldable pub fold_entry : Chat → Reply → Work → Result Failure Chat
  fold_entry c r w = do t ← reply_text r.payload; returns (fold_text c r w t)

  unfoldable pub fold_all : List Reply → Chat → Result Failure Chat
  fold_all [] c = returns c
  fold_all (r ∷ rs) c = elim (entry_of c.panel r.request_id) [
    | none ↦ fold_all rs c
    | some w ↦ do c' ← fold_entry c r w; fold_all rs c'
  ]

  unfoldable pub settle_failed : List (Entry Work) → Chat → Chat
  settle_failed [] c = c
  settle_failed (e ∷ es) c = settle_failed es (settle c e.key e.value (failed_text e.value))

  -- The notice that a session failed.
  unfoldable pub take_failure : Chat → Json → Chat
  take_failure c (str work) =
      let (failed, table) = Table.fail c.panel.table work in
      settle_failed failed (with_table c table)
  take_failure c _ = c

  abbrev pub take_failed : Chat → Option Json → Result Failure Taken
  take_failed c none = raises value_error
  take_failed c (some work) =
      if truthy work then returns (goes_on (take_failure c work)) else raises value_error

  abbrev pub take_system : Chat → Event → Result Failure Taken
  take_system c e =
      if text_eq e.source "timer"
      then returns (goes_on c)
      else (do failed ← failed_of e.payload; take_failed c failed)

  -- The loop over the mail that is no reply.
  unfoldable pub take_one : Chat → Event → Result Failure Taken
  take_one c e = elim e.kind [
    | none ↦ raises value_error
    | some kind ↦
        if is_message kind
        then take_message c e
        else if kind == "request"
        then take_request c e
        else if kind == "cancel" && is_some (job_of c)
        then returns cancelled
        else if kind == "system"
        then take_system c e
        else raises value_error
  ]

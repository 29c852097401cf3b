-- ===== src/Exchanges/Tests.antt =====
-- A session that asked one worker for a result receives two results from it, and mail from another.
use entourage.Prelude.{
  false, returns, ◌++◌, ◌+++◌, ◌≤◌, String, none, some, List, [], ◌∷◌, ◌≡◌, refl, Dict, lookup,
  assign, pop, select, map, All, length,
}
use entourage.Mail.{Event}
use entourage.Mail.Json.{null}
use entourage.Exchanges.{
  Pending, Reply, reply_of, label_or, request, matched, ingest, drop, pop_labels,
}
use entourage.Executables.Types.{Context}
use entourage.Executables.Context as Staged
use entourage.Executables.Context.{mail}
use entourage.Exchanges.Call.{ask, request_reply_roundtrip}
use entourage.Exchanges.Shuffles.{Shuffle}
use entourage.Exchanges.Replies.{
  IsReplyTo, closes, ingest_shuffles, ingest_authenticates, ingest_reports_one_result,
}

abbrev answer : String → String → Event
answer source kind = record {
  event_id = none;
  kind = some kind;
  source = some source;
  request_id = some "r1";
  reply_to = none;
  payload = null;
}

abbrev delivered : List Event
delivered =
    answer "worker" "progress"
    ∷ answer "stranger" "result"
    ∷ answer "worker" "result"
    ∷ answer "worker" "result"
    ∷ []

abbrev asked : Dict Pending
asked = request [] "r1" "worker" "task" none

kinds_reported :
    map (λ (r : Reply). r.kind) (ingest delivered asked).replies ≡ "progress" ∷ "result" ∷ []
unfolding ingest matched request lookup assign pop select
kinds_reported = refl

forgotten : drop asked "worker" ≡ ("task" ∷ [], [])
unfolding drop pop_labels request lookup assign pop select
forgotten = refl

ingest_shuffles_example :
    Shuffle
      (map (λ (r : Reply). r.event) (ingest delivered asked).replies)
      (ingest delivered asked).others
      delivered
ingest_shuffles_example = ingest_shuffles delivered asked

ingest_authenticates_example : All (IsReplyTo asked) (ingest delivered asked).replies
ingest_authenticates_example = ingest_authenticates delivered asked

ingest_reports_one_result_example :
    length (select (closes "r1") (ingest delivered asked).replies) ≤ 1
ingest_reports_one_result_example = ingest_reports_one_result delivered asked "r1"

-- A digest for tests: the texts, one after the other.
abbrev joined : List String → String
joined [] = ""
joined (t ∷ ts) = t +++ ("," +++ joined ts)

abbrev context_of : String → Context
context_of session_id = record {
  session_id = session_id;
  definition = "d:v1";
  upgrading_from = none;
  attempt = 1;
  last_error = none;
  activation_id = "a1";
  config = null;
  has_more = false;
  publish = [];
  spawn = [];
}

abbrev asked_event : Event
asked_event = record {
  event_id = some "mail:boss,task,";
  kind = some "request";
  source = some "boss";
  request_id = some "mail:boss,task,";
  reply_to = some "boss";
  payload = null;
}

abbrev asking : Context
asking = record (context_of "boss") {
  publish = record { session_id = "worker"; event = asked_event } ∷ [];
}

abbrev asked_table : Dict Pending
asked_table = request [] "mail:boss,task," "worker" "task" none

asks :
    ask joined [] (context_of "boss") "worker" null "task" none
    ≡ returns (asking, asked_table, "mail:boss,task,")
unfolding ask Staged.request
asks = refl

abbrev replied_event : Event
replied_event =
    mail joined (context_of "worker") null "reply:mail:boss,task,,result," "result"
      (some "mail:boss,task,")

abbrev replying : Context
replying = record (context_of "worker") {
  publish = record { session_id = "boss"; event = replied_event } ∷ [];
}

replies :
    Staged.reply joined (context_of "worker") asked_event null "result"
    ≡ returns (replying, "mail:worker,reply:mail:boss,task,,result,,")
unfolding Staged.reply Staged.send
replies = refl

request_reply_roundtrip_example :
    (e : Event) × (replying.publish ≡ [] ++ record { session_id = "boss"; event = e } ∷ [])
    × ((ingest (e ∷ []) asked_table).replies
        ≡ reply_of e "result" "mail:boss,task,"
            (record { to = "worker"; label = label_or none "task" })
          ∷ [])
    × (lookup "mail:boss,task," (ingest (e ∷ []) asked_table).table ≡ none)
request_reply_roundtrip_example =
    request_reply_roundtrip joined (context_of "boss") asking (context_of "worker") replying []
      asked_table null null "task" "result" "mail:boss,task,"
      "mail:worker,reply:mail:boss,task,,result,," none asked_event asks refl replies

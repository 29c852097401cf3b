-- ===== src/Sessions/Tests.antt =====
-- The session store run on a small history: a bound definition, a session with one message, and a
-- claim that leases it.
mod Claims
mod Commits
use entourage.Prelude.{
  none, some, List, [], ◌∷◌, true, false, ◌≡◌, ◌≢◌, refl, returns, decimal, find, select, update,
  ◌+◌, ◌==◌, ◌++◌,
}
use entourage.Mail.{Event}
use entourage.Mail.Json.{obj, null}
use entourage.Mail.Fields.{end}
use entourage.Sessions.Types.{Store, Session, Activation, Instant, seconds, empty}
use entourage.Sessions.Table.{session, set_session, has_input, pending, definition, is_bound}
use entourage.Sessions.Ready.{has_mail, ready_clause, is_ready}
use entourage.Sessions.Mailing.{
  bind_definition, create, append, append_event, append_id, add_input, new_session,
}
use entourage.Sessions.Claim.{
  Request, claim, least_recent, candidate, next_row, deliver_deadline, max_claim, take_lease, lease,
}
use entourage.Sessions.Checkpoint.{
  Proposal, commit, release, retry, holder, validate, create_children, incorporate, incorporate_one,
  publish_all,
}
use entourage.Sessions.Purge.{
  purge, purge_ids, insert_completed, by_completion, delete_one, delete_sessions,
}
use entourage.Sessions.Valid.{IsValid}
use entourage.Sessions.Run.Fencing.{Spent, commit_spends_activation}
use entourage.Sessions.Run.{
  Call, binds, creates, appends, claims, releases, commits, purges, step, run,
  run-IsValid_from_empty,
}

-- Opening this opens the whole machine.
pub machine : Store → List Call → Store
unfolding run step bind_definition create append append_event append_id add_input claim least_recent
    candidate next_row deliver_deadline max_claim take_lease commit release retry holder validate
    create_children incorporate incorporate_one publish_all purge purge_ids insert_completed
    by_completion delete_one delete_sessions session set_session has_input pending definition
    is_bound has_mail ready_clause is_ready find select update decimal
machine = run

abbrev pub message : Event
message = record {
  event_id = some "m1";
  kind = some "user";
  source = none;
  request_id = none;
  reply_to = none;
  payload = null;
}

abbrev pub request : Request
request = record {
  lease_seconds = seconds 30;
  executable = none;
  max_events = some 1;
  session_id = none;
  worker = none;
  max_attempts = some 3;
}

abbrev pub script : List Call
script = binds "d:v1" "{}" ∷ creates "s" "d:v1" (obj end) ∷ appends "s" message ∷ []

abbrev pub waiting_store : Store
waiting_store = run empty script

abbrev pub held_store : Store
held_store = step waiting_store (claims request 10 "t1")

abbrev pub holder_of : Activation
holder_of = record {
  session_id = "s";
  executable = "d:v1";
  token = "t1";
  state = obj end;
  events = message ∷ [];
  has_more = false;
  attempt = 1;
  last_error = none;
}

pub claimed : claim waiting_store request 10 "t1" ≡ returns (some holder_of, held_store)
unfolding machine
claimed = refl

abbrev pub finished : Proposal
finished = record {
  state = obj end;
  incorporated = "m1" ∷ [];
  publish = [];
  deadline = none;
  complete = true;
  spawn = [];
  rebind = none;
}

abbrev pub finished_store : Store
finished_store = step held_store (commits holder_of finished 20 20)

committed : commit held_store holder_of finished 20 20 ≡ returns (tt, finished_store)
unfolding machine
committed = refl

run-IsValid_from_empty_example : IsValid (run empty script)
run-IsValid_from_empty_example = run-IsValid_from_empty script

pub waiting_IsValid : IsValid waiting_store
waiting_IsValid = run-IsValid_from_empty script

held_IsValid : IsValid held_store
unfolding run
held_IsValid = run-IsValid_from_empty (script ++ claims request 10 "t1" ∷ [])

abbrev pub waiting_row : Session
waiting_row = new_session "s" "d:v1" (obj end)

abbrev pub held_row : Session
held_row = lease "t1" 40 none 1 waiting_row

pub waiting_found : session waiting_store "s" ≡ some waiting_row
unfolding machine
waiting_found = refl

held_found : session held_store "s" ≡ some held_row
unfolding machine
held_found = refl

abbrev later_calls : List Call
later_calls = claims request 50 "t2" ∷ purges (Instant.at 5) none ∷ []

commit_spends_activation_example : Spent (run finished_store later_calls) holder_of
commit_spends_activation_example =
    commit_spends_activation held_store finished_store holder_of finished 20 20 later_calls
      committed (refl, (tt, tt))

abbrev released_store : Store
released_store = step held_store (releases holder_of none (some (seconds 5)) 20 21)

released : release held_store holder_of none (some (seconds 5)) 20 21 ≡ returns (tt, released_store)
unfolding machine
released = refl

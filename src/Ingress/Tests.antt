-- ===== src/Ingress/Tests.antt =====
-- A chat keyed by conversation receives a message twice.
use entourage.Prelude.{
  String, none, some, [], ◌∷◌, true, false, ◌≡◌, refl, Dict, find, select, lookup, assign, returns,
  raises,
}
use entourage.Mail.{Event}
use entourage.Mail.Json.{null, obj}
use entourage.Mail.Fields.{end}
use entourage.Sessions.Types.{Store, empty, value_error}
use entourage.Sessions.Table.{session, has_input, definition}
use entourage.Sessions.Mailing.{
  bind_definition, create, inspect, append, append_event, append_id, add_input,
}
use entourage.Executables.Registry.{last_colon}
use entourage.Ingress.{
  Member, Outcome, outcome, Delivery, new_member, new_ingress, route, ensure, ensure_session,
  deliver,
}
use entourage.Ingress.Again.{deliver_again}

-- Opening this opens the ingress.
machine : Dict Member → Store → String → Event → Outcome Delivery
unfolding find select lookup assign session has_input definition bind_definition create inspect
    append append_event append_id add_input last_colon new_member new_ingress route ensure
    ensure_session deliver
machine members db alias e = deliver members db alias e (some "c9")

abbrev chat : Member
chat = record {
  alias = "chat";
  executable = "chat:v1";
  keying = "conversation";
  initial_state = obj end;
  session = none;
}

abbrev members : Dict Member
members = record { key = "chat"; value = chat } ∷ []

accepted : new_member chat ≡ returns chat
unfolding machine
accepted = refl

colon_refused : new_member (record chat { alias = "a:b" }) ≡ raises value_error
unfolding machine
colon_refused = refl

registered : new_ingress (chat ∷ []) [] ≡ returns members
unfolding machine
registered = refl

duplicate_refused : new_ingress (chat ∷ chat ∷ []) [] ≡ raises value_error
unfolding machine
duplicate_refused = refl

abbrev hello : Event
hello = record {
  event_id = some "m1";
  kind = some "user";
  source = none;
  request_id = none;
  reply_to = none;
  payload = null;
}

abbrev first : Delivery
first = record { session_id = "chat:c9"; created = true; appended = true }

reached : route members "chat" hello (some "c9") ≡ returns "chat:c9"
unfolding machine
reached = refl

abbrev after_first : Store
after_first = (machine members empty "chat" hello).store

delivered : deliver members empty "chat" hello (some "c9") ≡ outcome (returns first) after_first
unfolding machine
delivered = refl

explicit :
    ensure_session empty "s" "d:v1" "{}" (obj end)
    ≡ outcome (returns true) (ensure_session empty "s" "d:v1" "{}" (obj end)).store
unfolding machine
explicit = refl

deliver_again_example :
    deliver members after_first "chat" hello (some "c9")
    ≡ outcome (returns (record first { created = false; appended = false })) after_first
deliver_again_example =
    deliver_again members empty after_first "chat" hello (some "c9") first delivered

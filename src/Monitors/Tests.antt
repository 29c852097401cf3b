-- ===== src/Monitors/Tests.antt =====
-- A heartbeat of a child that has gone quiet, and a deadline for a reply.
use entourage.Prelude.{
  change, update, subst, sym, none, some, [], ◌∷◌, false, ◌≡◌, refl, Dict, lookup, assign, returns,
  raises,
}
use entourage.Sessions.Types.{seconds}
use entourage.Executables.Types.{value_error}
use entourage.Monitors.{
  Monitor, Armed, new_monitor, is_due, arm, observe, due, armed_record, lapse, monitor_to_dict,
  mark_lapsed,
}
use entourage.Monitors.Spells.{Steps, arms, observes, none_left, then_, one_lapse_for_each_spell}

abbrev heartbeat : Monitor
heartbeat = record {
  notify = "boss";
  monitor_id = some "hb";
  correlation_id = none;
  source = some "child";
  deadline = none;
  interval = some (seconds 10);
}

abbrev reply_due : Monitor
reply_due = record heartbeat {
  monitor_id = some "r1";
  correlation_id = some "c1";
  source = none;
  deadline = some 50;
  interval = none;
}

accepted : new_monitor heartbeat ≡ returns heartbeat
unfolding new_monitor
accepted = refl

needs_one_of_both : new_monitor (record heartbeat { deadline = some 50 }) ≡ raises value_error
unfolding new_monitor
needs_one_of_both = refl

abbrev quiet_child : Dict Armed
quiet_child = record { key = "hb"; value = lapse (armed_record (monitor_to_dict heartbeat) 0) } ∷ []

abbrev both_armed : Dict Armed
both_armed =
    record { key = "hb"; value = lapse (armed_record (monitor_to_dict heartbeat) 0) }
    ∷ record { key = "r1"; value = armed_record (monitor_to_dict reply_due) 5 }
    ∷ []

fires_once :
    (due (record { key = "hb"; value = armed_record (monitor_to_dict heartbeat) 0 } ∷ []) 10
      ≡ returns (armed_record (monitor_to_dict heartbeat) 0 ∷ []))
    × (due quiet_child 10 ≡ returns [])
unfolding due is_due
fires_once = (refl, refl)

armed : arm quiet_child (monitor_to_dict reply_due) 5 ≡ returns both_armed
unfolding arm lookup assign
armed = refl

abbrev quiet_once : Dict Armed
quiet_once = record { key = "hb"; value = armed_record (monitor_to_dict heartbeat) 0 } ∷ []

lapse_marked : mark_lapsed quiet_once "hb" ≡ quiet_child
unfolding mark_lapsed lookup change update
lapse_marked = refl

armed_once : lookup "hb" quiet_once ≡ some (armed_record (monitor_to_dict heartbeat) 0)
unfolding lookup
armed_once = refl

still_there : lookup "hb" both_armed ≡ some (lapse (armed_record (monitor_to_dict heartbeat) 0))
unfolding lookup
still_there = refl

answered : Steps "hb" (mark_lapsed quiet_once "hb") (observe both_armed (some "c1") none 20).1
answered =
    subst (λ s. Steps "hb" s (observe both_armed (some "c1") none 20).1) (sym lapse_marked)
      (then_ (arms (monitor_to_dict reply_due) 5 armed)
        (then_ (observes (some "c1") none 20 still_there refl) none_left))

one_lapse_for_each_spell_example :
    (r : Armed) × (lookup "hb" (observe both_armed (some "c1") none 20).1 ≡ some r)
    × (is_due r 500 ≡ returns false)
one_lapse_for_each_spell_example =
    one_lapse_for_each_spell "hb" quiet_once (observe both_armed (some "c1") none 20).1
      (armed_record (monitor_to_dict heartbeat) 0) 500 armed_once refl answered

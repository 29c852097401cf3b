-- ===== src/Monitors.antt =====
-- Declared expectations over the event plane (entourage/monitors.py): `Monitor`, and the operations of
-- InMemoryMonitorStore as functions from the store to a store. A store is the dictionary of armed
-- records in insertion order; instants and finite intervals are whole numbers of ticks.
pub mod Spells
mod Tests
use entourage.Prelude.{
  ℕ, zero, suc, ◌+◌, String, Option, none, some, List, [], ◌∷◌, Bool, true, false, ◌&&◌, ◌||◌, not,
  ◌==◌, leb, if◌then◌else◌, is_some, map, Dict, Entry, lookup, assign, pop, change, Result, returns,
  raises, ◌>>=◌, ◌>>◌, require,
}
use entourage.Sessions.Types.{Seconds, seconds, negative, not_finite}
use entourage.Executables.Types.{Failure, value_error, key_error}

-- An interval that is not finite is an infinite one, or no number.
pub record Monitor : Type 0 where
  pub notify : String
  pub monitor_id : Option String
  pub correlation_id : Option String
  pub source : Option String
  pub deadline : Option ℕ
  pub interval : Option Seconds

abbrev pub is_positive : Option Seconds → Bool
is_positive none = true
is_positive (some (seconds zero)) = false
is_positive (some (seconds (suc n))) = true
is_positive (some (negative n)) = false
is_positive (some not_finite) = true

abbrev pub differ : Bool → Bool → Bool
differ true b = not b
differ false b = b

-- `Monitor.__post_init__`.
unfoldable pub new_monitor : Monitor → Result Failure Monitor
new_monitor m = do
  require (not (m.notify == "")) value_error
  require (differ (is_some m.deadline) (is_some m.interval)) value_error
  require (is_positive m.interval) value_error
  require (is_some m.correlation_id || is_some m.source) value_error
  returns m

-- A monitor's dictionary, which the stores take and keep: a key is missing where there is `none`.
pub record MonitorDict : Type 0 where
  pub notify : String
  pub monitor_id : Option String
  pub correlation_id : Option String
  pub source : Option String
  pub deadline : Option ℕ
  pub interval : Option Seconds

-- The items whose value is not `None`.
abbrev pub monitor_to_dict : Monitor → MonitorDict
monitor_to_dict m = record {
  notify = m.notify;
  monitor_id = m.monitor_id;
  correlation_id = m.correlation_id;
  source = m.source;
  deadline = m.deadline;
  interval = m.interval;
}

-- An armed record: the monitor's own items, and those that `_armed_record` adds.
pub record Armed : Type 0 where
  pub monitor : MonitorDict
  pub last_seen : ℕ
  pub lapsed : Bool
  pub cycles : ℕ

abbrev pub armed_record : MonitorDict → ℕ → Armed
armed_record m now = record { monitor = m; last_seen = now; lapsed = false; cycles = 0 }

-- `mine and mine == observed`: an empty text matches nothing.
abbrev pub same_text : Option String → Option String → Bool
same_text (some mine) (some observed) = not (mine == "") && mine == observed
same_text _ _ = false

abbrev pub matches : Armed → Option String → Option String → Bool
matches r correlation_id source =
    same_text r.monitor.correlation_id correlation_id || same_text r.monitor.source source

-- `now - last_seen >= interval`.
abbrev pub elapsed : ℕ → ℕ → Seconds → Bool
elapsed now last_seen (seconds n) = leb (last_seen + n) now
elapsed now last_seen (negative n) = leb last_seen (now + n)
elapsed now last_seen not_finite = false

abbrev pub quiet : Armed → ℕ → Result Failure Bool
quiet r now = elim r.monitor.interval [
  | none ↦ raises key_error
  | some interval ↦ returns (elapsed now r.last_seen interval)
]

-- `_is_due`.
unfoldable pub is_due : Armed → ℕ → Result Failure Bool
is_due r now =
    if r.lapsed
    then returns false
    else elim r.monitor.deadline [ none ↦ quiet r now | some deadline ↦ returns (leb deadline now) ]

-- The value at the key `monitor_id`.
abbrev pub known : Option String → Result Failure String
known none = raises key_error
known (some id) = returns id

unfoldable pub arm : Dict Armed → MonitorDict → ℕ → Result Failure (Dict Armed)
arm store m now = do
  id ← known m.monitor_id
  returns (if is_some (lookup id store) then store else assign id (armed_record m now) store)

unfoldable pub disarm : Dict Armed → String → Bool × Dict Armed
disarm store id = (is_some (lookup id store), pop id store)

abbrev pub refresh : ℕ → Armed → Armed
refresh now r = record r { last_seen = now; lapsed = false }

-- The loop over the items, whose keys are distinct: how many matched, and what is left.
unfoldable pub observe : Dict Armed → Option String → Option String → ℕ → ℕ × Dict Armed
observe [] correlation_id source now = (0, [])
observe (e ∷ es) correlation_id source now =
    let (matched, rest) = observe es correlation_id source now in
    if matches e.value correlation_id source
    then (
      suc matched,
      if is_some e.value.monitor.deadline
          then rest
          else record { key = e.key; value = refresh now e.value } ∷ rest,
    )
    else (matched, e ∷ rest)

unfoldable pub due : Dict Armed → ℕ → Result Failure (List Armed)
due [] now = returns []
due (e ∷ es) now = do
  here ← is_due e.value now
  rest ← due es now
  returns (if here then e.value ∷ rest else rest)

abbrev pub lapse : Armed → Armed
lapse r = record r { lapsed = true; cycles = suc r.cycles }

unfoldable pub mark_lapsed : Dict Armed → String → Dict Armed
mark_lapsed store id = elim (lookup id store) [
  | none ↦ store
  | some r ↦ if is_some r.monitor.deadline then pop id store else change id lapse store
]

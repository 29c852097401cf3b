-- ===== src/Sessions/Claim.antt =====
-- `claim` of sessions.py: it parks sessions whose attempts are used up, leases the ready session
-- that was claimed longest ago, delivers a passed deadline and returns the oldest pending mail.
pub mod Choice
pub mod Loop
pub mod Outcome
use entourage.Prelude.{
  ℕ, zero, suc, ◌+◌, String, ◌+++◌, Option, none, some, List, [], ◌∷◌, Bool, true, false, ◌&&◌, not,
  ◌==◌, ltb, leb, Result, returns, raises, ◌>>=◌, ◌>>◌, require, select, take, length, absent_or,
  if◌then◌else◌, decimal,
}
use entourage.Mail.{Json, Event}
use entourage.Mail.Json.{obj}
use entourage.Mail.Fields.{field, end}
use entourage.Sessions.Types.{
  Store, Session, Activation, Seconds, seconds, negative, Error, value_error, out_of_fuel, Tx,
}
use entourage.Sessions.Types.Status.{active, failed}
use entourage.Sessions.Table.{set_session, pending}
use entourage.Sessions.Ready.{is_ready}
use entourage.Sessions.Mailing.{append_event, positive, limited}

-- The arguments of a claim.
pub record Request : Type 0 where
  pub lease_seconds : Seconds
  pub executable : Option String
  pub max_events : Option ℕ
  pub session_id : Option String
  pub worker : Option String
  pub max_attempts : Option ℕ

abbrev pub eligible : Request → Store → ℕ → Session → Bool
eligible r db now s =
    is_ready db now s
    && absent_or (λ e. s.executable == e) r.executable
    && absent_or (λ id. s.id == id) r.session_id

-- `ORDER BY s.last_claim, s.rowid LIMIT 1`: the first of the rows with the least `last_claim`.
unfoldable pub least_recent : List Session → Option Session
least_recent [] = none
least_recent (s ∷ rest) = elim (least_recent rest) [
  | none ↦ some s
  | some t ↦ if leb s.last_claim t.last_claim then some s else some t
]

unfoldable pub candidate : Request → Store → ℕ → Option Session
candidate r db now = least_recent (select (eligible r db now) db.sessions)

abbrev pub attempts_left : Request → Session → Bool
attempts_left r s = absent_or (λ n. ltb s.attempts n) r.max_attempts

abbrev pub exhaust : Session → Session
exhaust s = record s { status = failed; token = none; lease_until = none; worker = none }

-- The loop of `claim`: the row to lease, after the rows with no attempt left were parked. The outer
-- `none` means that the fuel ran out.
unfoldable pub next_row : ℕ → Request → ℕ → Store → Option (Option Session × Store)
next_row zero r now db = none
next_row (suc fuel) r now db = elim (candidate r db now) [
  | none ↦ some (none, db)
  | some row ↦
      let rest = next_row fuel r now (set_session db row.id exhaust) in
      if attempts_left r row then some (some row, db) else rest
]

abbrev pub timer_id : Session → String
timer_id row = "timer:" +++ (row.id +++ (":" +++ decimal row.revision))

abbrev pub timer_event : Session → ℕ → Event
timer_event row deadline = record {
  event_id = some (timer_id row);
  kind = some "system";
  source = some "timer";
  request_id = none;
  reply_to = none;
  payload = obj (field "deadline" (Json.num deadline) end);
}

-- `if row["deadline"] is not None and row["deadline"] <= now: self._append(...)`.
unfoldable pub deliver_deadline : Store → ℕ → Session → Tx Bool
deliver_deadline db now row = elim row.deadline [
  | none ↦ returns (false, db)
  | some deadline ↦
      if leb deadline now
      then append_event db row.id (timer_event row deadline) true
      else returns (false, db)
]

-- `SELECT COALESCE(MAX(last_claim), 0) FROM wake_sessions`.
unfoldable pub max_claim : List Session → ℕ
max_claim [] = 0
max_claim (s ∷ rest) = let m = max_claim rest in if leb m s.last_claim then s.last_claim else m

abbrev pub lease : String → ℕ → Option String → ℕ → Session → Session
lease token until worker claim_number s = record s {
  status = active;
  token = some token;
  lease_until = some until;
  worker = worker;
  attempts = s.attempts + 1;
  last_claim = claim_number;
}

-- `SELECT event ... LIMIT max_events + 1`, and the cut to `max_events`.
abbrev pub more_than : Option ℕ → List Event → Bool
more_than none events = false
more_than (some n) events = ltb n (length events)

abbrev pub batch : Option ℕ → List Event → List Event
batch none events = events
batch (some n) events = if ltb n (length events) then take n events else events

abbrev pub one_more : Option ℕ → Option ℕ
one_more none = none
one_more (some n) = some (n + 1)

-- What the holder of the new lease is given, from the row that was read before the deadline was
-- delivered, and from the store as leased.
abbrev pub activation : Request → Session → String → Store → Activation
activation r row token leased =
    let events = limited (one_more r.max_events) (pending leased row.id) in
    record {
      session_id = row.id;
      executable = row.executable;
      token = token;
      state = row.state;
      events = batch r.max_events events;
      has_more = more_than r.max_events events;
      attempt = row.attempts + 1;
      last_error = row.last_error;
    }

unfoldable pub take_lease : Request → Store → ℕ → ℕ → String → Session → Tx (Option Activation)
take_lease r db now length_of_lease token row = do
  (_, db') ← deliver_deadline db now row
  let until = now + length_of_lease
  let leased = set_session db' row.id (lease token until r.worker (max_claim db'.sessions + 1))
  returns (some (activation r row token leased), leased)

abbrev pub after_pick :
    Request → ℕ → ℕ → String → Option (Option Session × Store) → Tx (Option Activation)
after_pick r now n token none = raises out_of_fuel
after_pick r now n token (some (none, db)) = returns (none, db)
after_pick r now n token (some (some row, db)) = take_lease r db now n token row

-- A finite and positive number of seconds.
abbrev pub lease_length : Seconds → Result Error ℕ
lease_length (seconds zero) = raises value_error
lease_length (seconds (suc n)) = returns (suc n)
lease_length _ = raises value_error

-- `token` is the fresh `uuid4().hex`, `now` the reading of the clock. Each turn of the loop but the
-- last parks a ready session, so a fuel of one more than the number of sessions is enough.
unfoldable pub claim : Store → Request → ℕ → String → Tx (Option Activation)
claim db r now token = do
  n ← lease_length r.lease_seconds
  require (positive r.max_events) value_error
  require (positive r.max_attempts) value_error
  after_pick r now n token (next_row (suc (length db.sessions)) r now db)

-- ===== src/Sessions/Types.antt =====
-- The rows of the tables `wake_sessions`, `wake_inputs` and `wake_definitions`, and the types of
-- session_backend.py. Instants are whole ticks from an origin at or before every instant in use.
use entourage.Prelude.{ℕ, String, Option, List, [], Bool, true, false}
use entourage.Prelude.{Result}
use entourage.Mail.{Json, Event}

pub data Status : Type 0 where
  ready active waiting complete failed : Status

pub data Error : Type 0 where
  value_error key_error session_already_exists stale_activation out_of_fuel : Error

abbrev pub terminal : Status → Bool
terminal complete = true
terminal failed = true
terminal _ = false

-- `status IN ('ready', 'active')`.
abbrev pub mid_step : Status → Bool
mid_step ready = true
mid_step active = true
mid_step _ = false

abbrev pub is_complete : Status → Bool
is_complete complete = true
is_complete _ = false

abbrev pub same_status : Status → Status → Bool
same_status ready ready = true
same_status active active = true
same_status waiting waiting = true
same_status complete complete = true
same_status failed failed = true
same_status _ _ = false

abbrev pub is_failed : Status → Bool
is_failed failed = true
is_failed _ = false

pub record Session : Type 0 where
  pub id : String
  pub executable : String
  pub state : Json
  pub status : Status
  pub deadline : Option ℕ
  pub token : Option String
  pub lease_until : Option ℕ
  pub revision : ℕ
  pub last_claim : ℕ
  pub completed_at : Option ℕ
  pub attempts : ℕ
  pub worker : Option String
  pub last_error : Option String

pub record Input : Type 0 where
  pub session_id : String
  pub event_id : String
  pub event : Event
  pub incorporated : Bool

-- A contract stands for its JSON text with sorted keys.
pub record Definition : Type 0 where
  pub executable : String
  pub contract : String

pub record Store : Type 0 where
  pub sessions : List Session
  pub inputs : List Input
  pub definitions : List Definition

abbrev pub empty : Store
empty = record { sessions = []; inputs = []; definitions = [] }

-- A float argument that must be finite: an instant, or a length of time.
pub data Instant : Type 0 where
  at : ℕ → Instant
  not_finite : Instant

pub data Seconds : Type 0 where
  seconds : ℕ → Seconds
  negative : ℕ → Seconds
  not_finite : Seconds

pub record Activation : Type 0 where
  pub session_id : String
  pub executable : String
  pub token : String
  pub state : Json
  pub events : List Event
  pub has_more : Bool
  pub attempt : ℕ
  pub last_error : Option String

pub record Publication : Type 0 where
  pub session_id : String
  pub event : Event

pub record Spawn : Type 0 where
  pub session_id : String
  pub executable : String
  pub state : Json

pub record SessionSnapshot : Type 0 where
  pub executable : String
  pub state : Json
  pub status : Status
  pub deadline : Option ℕ
  pub revision : ℕ
  pub attempts : ℕ
  pub last_error : Option String

pub record SessionListing : Type 0 where
  pub session_id : String
  pub executable : String
  pub status : Status
  pub deadline : Option ℕ
  pub revision : ℕ
  pub attempts : ℕ
  pub worker : Option String
  pub lease_until : Option ℕ

-- A transaction: what it returns and the committed store, or the exception after which the
-- database is as before.
abbrev pub Tx : Type 0 → Type 0
Tx A = Result Error (A × Store)

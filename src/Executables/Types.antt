-- ===== src/Executables/Types.antt =====
-- The records of executables.py. A handler is a function of what it is given; the hash of a source
-- file, a code object's name and the JSON text of a contract are read from outside.
use entourage.Prelude.{ℕ, String, Option, List, Bool, Dict, Result}
use entourage.Mail.{Json, Event}
use entourage.Sessions.Types.{Publication, Spawn, Seconds, Error}
use entourage.Sessions.Checkpoint.{Proposal}

-- What a handler is told, and what it has staged.
pub record Context : Type 0 where
  pub session_id : String
  pub definition : String
  pub upgrading_from : Option String
  pub attempt : ℕ
  pub last_error : Option String
  pub activation_id : String
  pub config : Json
  pub has_more : Bool
  pub publish : List Publication
  pub spawn : List Spawn

-- An exception: of the handler, of the store, or of the dispatcher's own checks.
pub data Failure : Type 0 where
  handler_error : String → Failure
  store_error : Error → Failure
  value_error key_error type_error overflow_error attribute_error : Failure

-- What a handler returns.
pub data Outcome : Type 0 where
  proposal : Proposal → Outcome
  other : Outcome

abbrev pub Handler : Type 0
Handler = Context → Json → List Event → Result String Outcome

-- `source` is the file of the entrypoint, if it can be found, and `fingerprints` the hashes of that
-- file and of the resources.
pub record Executable : Type 0 where
  pub definition : String
  pub resume : Handler
  pub entrypoint : String
  pub state_schema : ℕ
  pub config : Json
  pub development : Bool
  pub source : Option String
  pub fingerprints : List String
  pub upgrades : Dict Handler

pub record Contract : Type 0 where
  pub protocol : String
  pub state_schema : ℕ
  pub entrypoint : String
  pub source : List String
  pub development : Bool
  pub config : Json

-- An entry of `_definitions`, and one of `_upgrades`.
pub record Served : Type 0 where
  pub handler : Handler
  pub contract : Contract

pub record Upgrade : Type 0 where
  pub migrate : Handler
  pub target : String

pub record Policy : Type 0 where
  pub lease_seconds : Seconds
  pub max_attempts : Option ℕ

pub record Dispatcher : Type 0 where
  pub max_events : ℕ
  pub lease_seconds : Seconds
  pub max_attempts : Option ℕ
  pub worker : String
  pub session : Option String
  pub definitions : Dict Served
  pub upgrades : Dict Upgrade
  pub policies : Dict Policy
  pub cursor : ℕ

pub record DispatchResult : Type 0 where
  pub session_id : String
  pub committed : Bool
  pub error : Option Failure

-- ===== src/Executables/Registry.antt =====
-- What a dispatcher serves: `Executable.contract`, `Dispatcher.__init__`, `register`, `_policy` and
-- `create` of executables.py. `dumps` is the JSON text of a contract.
pub mod Consistent
use entourage.Prelude.{
  ℕ, zero, suc, ◌+◌, String, len, slice, Option, none, some, List, [], ◌∷◌, ◌++◌, Bool, true, false,
  ◌&&◌, ◌||◌, not, ◌==◌, ltb, map, any, Result, returns, raises, ◌>>=◌, ◌>>◌, require, Dict, Entry,
  lookup, assign, is_some, absent_or, if◌then◌else◌, or_else, mem_text, is_empty,
}
use entourage.Mail.{Json}
use entourage.Sessions.Types.{Store, Seconds, seconds, Error}
use entourage.Sessions.Mailing.{bind_definition, positive}
use entourage.Sessions.Mailing as Mailing
use entourage.Executables.Types.{
  Executable, Contract, Served, Upgrade, Policy, Dispatcher, Handler, Failure, value_error,
  key_error, store_error,
}
use entourage.Executables.Context.{is_object}

abbrev pub protocol : String
protocol = "entourage.activation/v1"

-- The place of the last colon before the place `n`.
unfoldable pub last_colon : String → ℕ → Option ℕ
last_colon s zero = none
last_colon s (suc n) =
    let rest = last_colon s n in if slice s n (suc n) == ":" then some n else rest

-- `all(definition.rpartition(":")[::2])`: there is text before and after the last colon.
abbrev pub has_version : String → Bool
has_version s = elim (last_colon s (len s)) [
  | none ↦ false
  | some at ↦ ltb 0 at && ltb (suc at) (len s)
]

abbrev pub upgrade_names : Executable → List String
upgrade_names e = map (λ (u : Entry Handler). u.key) e.upgrades

-- `contract`, for an executable whose fields have the declared types.
unfoldable pub contract : Executable → Result Failure Contract
contract e = do
  require (has_version e.definition) value_error
  require (ltb 0 e.state_schema) value_error
  require (is_object e.config) value_error
  require (not (any (λ old. old == "" || old == e.definition) (upgrade_names e))) value_error
  require (is_some e.source || e.development) value_error
  returns (record {
    protocol = protocol;
    state_schema = e.state_schema;
    entrypoint = e.entrypoint;
    source = if e.development then [] else e.fingerprints;
    development = e.development;
    config = e.config;
  })

-- `math.isfinite(lease_seconds) and lease_seconds > 0`.
abbrev pub is_positive : Seconds → Bool
is_positive (seconds n) = ltb 0 n
is_positive _ = false

-- `Dispatcher(store, ...)`; `worker` falls back to the host's name and the process number.
unfoldable pub new_dispatcher :
    ℕ → Seconds → Option ℕ → Option String → String → Option String → Result Failure Dispatcher
new_dispatcher max_events lease_seconds max_attempts worker host session = do
  require (ltb 0 max_events) value_error
  require (is_positive lease_seconds) value_error
  require (positive max_attempts) value_error
  returns (record {
    max_events = max_events;
    lease_seconds = lease_seconds;
    max_attempts = max_attempts;
    worker = elim worker [ none ↦ host | some w ↦ if w == "" then host else w ];
    session = session;
    definitions = [];
    upgrades = [];
    policies = [];
    cursor = 0;
  })

-- `name in self._definitions or name in self._upgrades`.
abbrev pub taken : Dispatcher → String → Bool
taken d name = is_some (lookup name d.definitions) || is_some (lookup name d.upgrades)

unfoldable pub add_upgrades : Dict Upgrade → Dict Handler → String → Dict Upgrade
add_upgrades us [] target = us
add_upgrades us (u ∷ rest) target =
    add_upgrades (assign u.key (record { migrate = u.value; target = target }) us) rest target

-- A call of the store; its exception is raised on.
abbrev pub store_call : {A : Type 0} → Result Error A → Result Failure A
store_call (returns a) = returns a
store_call (raises e) = raises (store_error e)

abbrev pub enrol : Dispatcher → Executable → Contract → Policy → Dispatcher
enrol d e c p = record d {
  definitions = assign e.definition (record { handler = e.resume; contract = c }) d.definitions;
  upgrades = add_upgrades d.upgrades e.upgrades e.definition;
  policies = assign e.definition p d.policies;
}

-- `None if max_attempts is None else ...`.
abbrev pub first_of : {A : Type 0} → Option A → Option A → Option A
first_of none b = b
first_of (some a) b = some a

module _ (dumps : Contract → String) where
  unfoldable pub register :
      Dispatcher
      → Store
      → Executable
      → Option Seconds
      → Option ℕ
      → Result Failure (Dispatcher × Store)
  register d db e lease_seconds max_attempts = do
    require (absent_or is_positive lease_seconds) value_error
    require (positive max_attempts) value_error
    require (not (taken d e.definition)) value_error
    require (not (any (taken d) (upgrade_names e))) value_error
    c ← contract e
    (_, db') ← store_call (bind_definition db e.definition (dumps c))
    let p : Policy = record {
      lease_seconds = or_else d.lease_seconds lease_seconds;
      max_attempts = first_of max_attempts d.max_attempts;
    }
    returns (enrol d e c p, db')

-- `_policy`; a missing key raises.
unfoldable pub policy : Dispatcher → String → Option Policy
policy d name = elim (lookup name d.definitions) [
  | some s ↦ lookup name d.policies
  | none ↦ elim (lookup name d.upgrades) [ none ↦ none | some u ↦ lookup u.target d.policies ]
]

-- `[*self._definitions, *self._upgrades]`.
abbrev pub names : Dispatcher → List String
names d =
    map (λ (e : Entry Served). e.key) d.definitions ++ map (λ (e : Entry Upgrade). e.key) d.upgrades

unfoldable pub create :
    Dispatcher → Store → String → String → Json → Result Failure (Unit {0} × Store)
create d db session_id definition state = do
  require (is_some (lookup definition d.definitions)) key_error
  require (is_object state) value_error
  store_call (Mailing.create db session_id definition state)

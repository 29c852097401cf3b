-- ===== src/Mail.antt =====
-- The values that cross component borders: JSON data and the event dictionaries of a mailbox
-- (entourage/session_backend.py says "JSON-compatible dictionaries with string keys").
use entourage.Prelude.{
  ℕ, zero, String, Option, none, some, Bool, true, false, not, if◌then◌else◌, ◌==◌,
}

mutual
  pub data Json : Type 0 where
    null : Json
    bool : Bool → Json
    num : ℕ → Json
    str : String → Json
    arr : Items → Json
    obj : Fields → Json

  pub data Items : Type 0 where
    nil : Items
    cons : Json → Items → Items

  pub data Fields : Type 0 where
    end : Fields
    field : String → Json → Fields → Fields

-- `d.get(key)` on the fields of an object.
pub get_field : String → Fields → Option Json
get_field key end = none
get_field key (field k v rest) = if k == key then some v else get_field key rest

-- `value.get(key)` of an object; nothing is found in what is no object.
unfoldable pub get : String → Json → Option Json
unfolding get_field
get key (obj fields) = get_field key fields
get key _ = none

-- The truth of a value.
abbrev pub truthy : Json → Bool
truthy null = false
truthy (bool b) = b
truthy (num zero) = false
truthy (str s) = not (s == "")
truthy (arr nil) = false
truthy (obj end) = false
truthy _ = true

abbrev pub text_of : Option Json → Option String
text_of (some (str s)) = some s
text_of _ = none

-- An event dictionary: the keys that the code reads, `none` for a key that is missing or holds
-- something else than a string, and a missing payload as `null`. A mailbox, which reads an event's id
-- as `str(event.get("event_id") or fresh)`, is given that text as `event_id`, and `none` where the key
-- is missing or its value is falsy.
pub record Event : Type 0 where
  pub event_id : Option String
  pub kind : Option String
  pub source : Option String
  pub request_id : Option String
  pub reply_to : Option String
  pub payload : Json

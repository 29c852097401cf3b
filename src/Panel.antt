-- ===== src/Panel.antt =====
-- An agent's registry of the work it has called (Panel of entourage/panel.py). What the calls send
-- through the session's context is given by its destination.
pub mod Deadlines
pub mod Ingest
mod Tests
use entourage.Prelude.{
  ℕ, String, Option, none, some, List, [], ◌∷◌, Bool, true, false, ◌&&◌, ◌||◌, not, ◌==◌, ltb, leb,
  if◌then◌else◌, Dict, Entry, lookup, assign, pop, change, select, map, Result, returns, raises,
}
use entourage.Mail.{Json}

pub data Error : Type 0 where
  value_error key_error : Error

pub record Work : Type 0 where
  pub to : String
  pub label : String
  pub mode : String
  pub status : String
  pub tool_call_id : Option String
  pub until : Option ℕ
  pub interruptible : Bool
  pub question : Option Json
  pub progress : Option Json
  pub fenced : Bool
  pub grants : Option (List String)

abbrev pub new_work : String → String → String → Option String → Option ℕ → Bool → Work
new_work child label mode tool_call_id until interruptible = record {
  to = child;
  label = label;
  mode = mode;
  status = "working";
  tool_call_id = tool_call_id;
  until = until;
  interruptible = interruptible;
  question = none;
  progress = none;
  fenced = false;
  grants = none;
}

-- `open`, with the child and the request id that the context gave.
unfoldable pub open_work :
    Dict Work
    → String
    → String
    → String
    → String
    → Option String
    → Option ℕ
    → Bool
    → Result Error (Dict Work)
open_work table child request_id label mode tool_call_id until interruptible =
    if mode == "wait" || mode == "connected"
    then returns
        (assign request_id (new_work child label mode tool_call_id until interruptible) table)
    else raises value_error

-- `find`: the first entry of a provider.
unfoldable pub find_work : Dict Work → String → Option (String × Work)
find_work [] work = none
find_work (e ∷ es) work =
    let rest = find_work es work in if e.value.to == work then some (e.key, e.value) else rest

abbrev pub is_waiting : Entry Work → Bool
is_waiting e = e.value.mode == "wait"

unfoldable pub waiting : Dict Work → Dict Work
waiting table = select is_waiting table

abbrev pub passed : ℕ → Option ℕ → Bool
passed now none = false
passed now (some until) = leb until now

-- `due`.
unfoldable pub due : Dict Work → ℕ → List String
due table now =
    map (λ (e : Entry Work). e.key)
      (select (λ (e : Entry Work). passed now e.value.until) (waiting table))

abbrev pub earlier : Option ℕ → Option ℕ → Option ℕ
earlier none u = u
earlier (some t) none = some t
earlier (some t) (some u) = if ltb u t then some u else some t

abbrev pub earliest : Dict Work → Option ℕ
earliest [] = none
earliest (e ∷ es) = earlier e.value.until (earliest es)

-- `next_deadline`.
unfoldable pub next_deadline : Dict Work → Option ℕ
next_deadline table = earliest (waiting table)

-- A change of one entry, which must be there; gives its destination.
unfoldable pub change_work : Dict Work → String → (Work → Work) → Result Error (String × Dict Work)
change_work table request_id f = elim (lookup request_id table) [
  | none ↦ raises key_error
  | some w ↦ returns (w.to, change request_id f table)
]

abbrev pub connect : Work → Work
connect w = record w { mode = "connected" }

abbrev pub resume : Work → Work
resume w = record w { status = "working"; question = none }

abbrev pub fence : Work → Work
fence w = record w { status = "cancelled"; mode = "connected" }

unfoldable pub promote : Dict Work → String → Result Error (String × Dict Work)
promote table request_id = change_work table request_id connect

-- `steer` sends to the entry's session and changes nothing.
unfoldable pub steer : Dict Work → String → Result Error (String × Dict Work)
steer table request_id = elim (lookup request_id table) [
  | none ↦ raises key_error
  | some w ↦ returns (w.to, table)
]

unfoldable pub answer : Dict Work → String → Result Error (String × Dict Work)
answer table request_id = change_work table request_id resume

unfoldable pub cancel : Dict Work → String → Result Error (String × Dict Work)
cancel table request_id = change_work table request_id fence

-- The loop of `fail`: what it reports failed, and the table it leaves.
unfoldable pub fail_all : List String → Dict Work → List (Entry Work) × Dict Work
fail_all [] table = ([], table)
fail_all (id ∷ ids) table =
    let (failed, left) = fail_all ids (pop id table) in
    (
      elim (lookup id table) [
        | none ↦ failed
        | some w ↦
            if w.status == "cancelled"
            then failed
            else record { key = id; value = record w { status = "failed" } } ∷ failed
      ],
      left,
    )

unfoldable pub fail : Dict Work → String → List (Entry Work) × Dict Work
fail table work =
    fail_all
      (map (λ (e : Entry Work). e.key) (select (λ (e : Entry Work). e.value.to == work) table))
      table

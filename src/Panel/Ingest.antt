-- ===== src/Panel/Ingest.antt =====
-- `Panel.ingest` of entourage/panel.py: the split of Exchanges, whose replies share their entries with
-- the table, and what each reply does to its entry.
use entourage.Prelude.{
  String, Option, none, some, List, [], ◌∷◌, true, ◌==◌, if◌then◌else◌, Dict, Entry, lookup, assign,
  pop, change, map, Result, returns, raises, ◌>>=◌,
}
use entourage.Mail.{Json, Event, get, truthy}
use entourage.Mail.Json.{str, obj}
use entourage.Executables.Types.{Failure, attribute_error}
use entourage.Exchanges as Base
use entourage.Exchanges.{Pending, Reply, Ingested, close}
use entourage.Panel.{Work}

-- The table, and the entries that this activation has taken out of it while replies refer to them.
pub record Entries : Type 0 where
  pub table : Dict Work
  pub closed : Dict Work

abbrev pub pending_of : Work → Pending
pending_of w = record { to = w.to; label = w.label }

abbrev pub pending_all : Dict Work → Dict Pending
pending_all table =
    map (λ (e : Entry Work). record { key = e.key; value = pending_of e.value }) table

-- The entry that a reply refers to.
unfoldable pub entry_of : Entries → String → Option Work
entry_of es id = elim (lookup id es.table) [ none ↦ lookup id es.closed | some w ↦ some w ]

unfoldable pub change_entry : String → (Work → Work) → Entries → Entries
change_entry id f es = elim (lookup id es.table) [
  | none ↦ record es { closed = change id f es.closed }
  | some w ↦ record es { table = change id f es.table }
]

abbrev pub close_entry : Reply → Entries → Entries
close_entry r es =
    if r.kind == "result"
    then record {
      table = pop r.request_id es.table;
      closed = elim (lookup r.request_id es.table) [
        | none ↦ es.closed
        | some w ↦ assign r.request_id w es.closed
      ];
    }
    else es

unfoldable pub close_all : List Reply → Entries → Entries
close_all [] es = es
close_all (r ∷ rs) es = close_all rs (close_entry r es)

-- `(payload or {}).get(key)`: a value that is not falsy and no object has no `get`.
abbrev pub payload_get : String → Json → Result Failure (Option Json)
payload_get key (obj fields) = returns (get key (obj fields))
payload_get key j = if truthy j then raises attribute_error else returns none

module _ (shown : Json → String) where
  -- `str(value)`.
  abbrev pub plain : Json → String
  plain (str s) = s
  plain j = shown j

  abbrev pub status_of : Option Json → String
  status_of none = "completed"
  status_of (some j) = plain j

  -- What a reply does to its entry; a cancelled one is only fenced.
  unfoldable pub noted : Reply → Work → Result Failure Work
  noted r w =
      if w.status == "cancelled"
      then returns (record w { fenced = true })
      else if r.kind == "ask"
      then (do
        text ← payload_get "text" r.payload
        returns (record w { status = "input_required"; question = text }))
      else if r.kind == "progress"
      then (do text ← payload_get "text" r.payload; returns (record w { progress = text }))
      else (do
        status ← payload_get "status" r.payload
        returns (record w { status = status_of status }))

  abbrev pub note_one : Reply → Entries → Result Failure Entries
  note_one r es = elim (entry_of es r.request_id) [
    | none ↦ returns es
    | some w ↦ do w' ← noted r w; returns (change_entry r.request_id (λ (old : Work). w') es)
  ]

  unfoldable pub note_all : List Reply → Entries → Result Failure Entries
  note_all [] es = returns es
  note_all (r ∷ rs) es = do es' ← note_one r es; note_all rs es'

  unfoldable pub ingest :
      List Event → Dict Work → Result Failure (List Reply × List Event × Entries)
  ingest mail table =
      let split = Base.ingest mail (pending_all table) in
      (do
        entries ←
            note_all split.replies (close_all split.replies (record { table = table; closed = [] }))
        returns (split.replies, split.others, entries))

-- ===== src/Exchanges.antt =====
-- The pending requests of a session (Exchanges of entourage/exchanges.py): a table under one key of
-- the session's state, and the split of delivered mail into replies and the rest.
pub mod Shuffles
pub mod Replies
pub mod Call
mod Tests
use entourage.Prelude.{
  String, Option, none, some, List, [], ◌∷◌, Bool, true, false, ◌&&◌, ◌==◌, if◌then◌else◌, Dict,
  Entry, lookup, assign, pop, select, map, mem_text, length,
}
use entourage.Mail.{Json, Event}

pub record Pending : Type 0 where
  pub to : String
  pub label : String

pub record Reply : Type 0 where
  pub request_id : String
  pub label : String
  pub source : String
  pub payload : Json
  pub event : Event
  pub kind : String
  pub entry : Pending

abbrev pub reply_kinds : List String
reply_kinds = "result" ∷ "ask" ∷ "progress" ∷ []

-- `label or key`.
abbrev pub label_or : Option String → String → String
label_or none key = key
label_or (some label) key = if label == "" then key else label

-- `request`; `request_id` is what `Context.request` returned.
unfoldable pub request : Dict Pending → String → String → String → Option String → Dict Pending
request table request_id destination key label =
    assign request_id (record { to = destination; label = label_or label key }) table

abbrev pub sent_by : Option String → String → Bool
sent_by none to = false
sent_by (some source) to = source == to

abbrev pub reply_of : Event → String → String → Pending → Reply
reply_of e kind request_id p = record {
  request_id = request_id;
  label = p.label;
  source = p.to;
  payload = e.payload;
  event = e;
  kind = kind;
  entry = p;
}

-- The reply that an event is: it has a reply's kind, names a pending request, and comes from the
-- session that was asked.
unfoldable pub matched : Dict Pending → Event → Option Reply
matched table e = elim e.kind [
  | none ↦ none
  | some kind ↦ elim e.request_id [
    | none ↦ none
    | some request_id ↦ elim (lookup request_id table) [
      | none ↦ none
      | some p ↦
          if mem_text kind reply_kinds && sent_by e.source p.to
          then some (reply_of e kind request_id p)
          else none
    ]
  ]
]

-- Only a `result` closes its exchange.
abbrev pub close : Reply → Dict Pending → Dict Pending
close r table = if r.kind == "result" then pop r.request_id table else table

pub record Ingested : Type 0 where
  pub replies : List Reply
  pub others : List Event
  pub table : Dict Pending

unfoldable pub ingest : List Event → Dict Pending → Ingested
ingest [] table = record { replies = []; others = []; table = table }
ingest (e ∷ mail) table = elim (matched table e) [
  | none ↦
      let rest = ingest mail table in
      record { replies = rest.replies; others = e ∷ rest.others; table = rest.table }
  | some r ↦
      let rest = ingest mail (close r table) in
      record { replies = r ∷ rest.replies; others = rest.others; table = rest.table }
]

-- The loop of `drop` over the dropped ids; `pop` of an id that is gone would raise, and none is.
unfoldable pub pop_labels : List String → Dict Pending → List String × Dict Pending
pop_labels [] table = ([], table)
pop_labels (id ∷ ids) table =
    let (labels, left) = pop_labels ids (pop id table) in
    (elim (lookup id table) [ none ↦ labels | some p ↦ p.label ∷ labels ], left)

unfoldable pub drop : Dict Pending → String → List String × Dict Pending
drop table destination =
    pop_labels
      (map (λ (e : Entry Pending). e.key)
        (select (λ (e : Entry Pending). e.value.to == destination) table))
      table

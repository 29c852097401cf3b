-- ===== src/Sessions/Valid/Mail.antt =====
-- The invariant through the arrival of mail, the creation of sessions and the incorporation of
-- events.
use entourage.Prelude.{
  String, none, some, List, [], ◌∷◌, ◌++◌, Bool, true, false, ◌||◌, ◌≡◌, refl, sym, subst, ◌∙◌, inl,
  inr, arith, ◌==◌, eq_iff, returns, any, any-append, All-append, All-map, is_some, Bool-cases,
  if◌then◌else◌,
}
use entourage.Mail.{Json, Event}
use entourage.Sessions.Types.{Store, Session, Input, is_complete}
use entourage.Sessions.Table.{session, has_input, keyed, is_pending}
use entourage.Sessions.Table.Rows.{append-DistinctIds}
use entourage.Sessions.Ready.{has_mail}
use entourage.Sessions.Mailing.{append_event, add_input, create, new_session}
use entourage.Sessions.Mailing.Outcome.{append_event-Appended, create-inv, session-new_session}
use entourage.Sessions.Valid.{IsValid, IsCoherent, DistinctKeys, Owned}

DistinctKeys-append :
    (rows : List Input) (i : Input)
    → any (keyed i.session_id i.event_id) rows ≡ false
    → DistinctKeys rows
    → DistinctKeys (rows ++ i ∷ [])
DistinctKeys-append [] i new h = (refl, tt)
DistinctKeys-append (j ∷ rest) i new h = (
  ground (
    arith,
    any-append (keyed j.session_id j.event_id) rest (i ∷ []),
    eq_iff i.session_id j.session_id,
    eq_iff j.session_id i.session_id,
    eq_iff i.event_id j.event_id,
    eq_iff j.event_id i.event_id,
  ),
  DistinctKeys-append rest i (ground arith) h.1,
)

pub has_mail-add_input :
    (db : Store) (id event_id j : String) (event : Event)
    → has_mail (add_input db id event_id event) j ≡ (has_mail db j || id == j)
unfolding has_mail add_input
has_mail-add_input db id event_id j event = any-append (is_pending j) db.inputs _ ∙ ground arith

add_input-settled :
    (db : Store) (id event_id : String) (event : Event) (row : Session)
    → session db id ≡ some row
    → is_complete row.status ≡ false
    → IsValid db
    → (j : String) (s : Session) → session db j ≡ some s
    → is_complete s.status ≡ true
    → has_mail (add_input db id event_id event) j ≡ false
add_input-settled db id event_id event row found open_row v j s h c = elim (Bool-cases (id == j)) [
  | inl e ↦
      let here : session db j ≡ some row =
        subst (λ k. session db k ≡ some row) ((eq_iff id j).0 e) found in
      absurd (ground arith)
  | inr e ↦ rw (has_mail-add_input db id event_id j event, v.settled j s h c) e
]

add_input-IsValid :
    (db : Store) (id event_id : String) (event : Event) (row : Session)
    → session db id ≡ some row
    → is_complete row.status ≡ false
    → has_input db id event_id ≡ false
    → IsValid db
    → IsValid (add_input db id event_id event)
unfolding add_input has_input session
add_input-IsValid db id event_id event row found open_row new v = record {
  keys = v.keys;
  rows = v.rows;
  inputs = DistinctKeys-append db.inputs _ new v.inputs;
  owned = All-append _ db.inputs _ v.owned (rw found, tt);
  settled = add_input-settled db id event_id event row found open_row v;
}

-- An append keeps the invariant, whether the event is new or known.
pub append_event-IsValid :
    (db : Store) (id : String) (event : Event) (timer : Bool) {new : Bool} {db' : Store}
    → append_event db id event timer ≡ returns (new, db')
    → IsValid db
    → IsValid db'
append_event-IsValid db id event timer h v = elim (append_event-Appended db id event timer h) [
  | inl (_, e) ↦ subst IsValid (sym e) v
  | inr (event_id, row, _, found, open_row, new, _, e) ↦
      subst IsValid (sym e) (add_input-IsValid db id event_id event row found open_row new v)
]

module _ (db : Store) (id executable : String) (state : Json) (free : session db id ≡ none) where
  created : Store
  created = record db { sessions = db.sessions ++ new_session id executable state ∷ [] }

  session-created :
      (j : String)
      → session created j
        ≡ (if id == j then some (new_session id executable state) else session db j)
  unfolding created
  session-created = session-new_session db id executable state free

  created_kept : (j : String) → is_some (session db j) ≡ true → is_some (session created j) ≡ true
  created_kept j h = ground (arith, session-created j)

  created-IsValid : IsValid db → IsValid created
  created-IsValid v = record {
    keys = unfold created session in append-DistinctIds db.sessions _ free v.keys;
    rows = λ j s h. elim (Bool-cases (id == j)) [
      | inl e ↦
          let fresh : new_session id executable state ≡ s = ground (arith, session-created j) in
          subst IsCoherent fresh (refl, refl, refl)
      | inr e ↦ v.rows j s (ground (arith, session-created j))
    ];
    inputs = unfold created in v.inputs;
    owned = unfold created in All-map (Owned db) db.inputs (λ i. created_kept i.session_id) v.owned;
    settled = λ j s h c. elim (Bool-cases (id == j)) [
      | inl e ↦
          let fresh : new_session id executable state ≡ s = ground (arith, session-created j) in
          absurd (ground arith)
      | inr e ↦ unfold created has_mail in v.settled j s (ground (arith, session-created j)) c
    ];
  }

-- Creation keeps the invariant.
pub create-IsValid :
    (db : Store) (id executable : String) (state : Json) {u : Unit {0}} {db' : Store}
    → create db id executable state ≡ returns (u, db')
    → IsValid db
    → IsValid db'
create-IsValid db id executable state h v =
    let (free, e) = create-inv db id executable state h in
    subst IsValid (sym e) (unfold created in created-IsValid db id executable state free v)

-- ===== src/Sessions/Service/Senders.antt =====
-- What a sender may rely on: `append` is idempotent, and new mail makes a parked session ready.
use entourage.Prelude.{
  ℕ, String, some, [], ◌∷◌, ◌++◌, Bool, true, false, ◌≡◌, sym, ap, subst, ◌∙◌, inl, inr, arith,
  returns, any-append, select-append, select, ◌==◌, eq_refl, starts_with, if◌then◌else◌, Bool-cases,
}
use mathlib.Core.List.{map-append}
use entourage.Mail.{Event}
use entourage.Sessions.Types.{Store, Session, terminal}
use entourage.Sessions.Table.{session, pending, has_input, keyed, is_pending}
use entourage.Sessions.Ready.{is_ready, has_mail}
use entourage.Sessions.Mailing.{append, append_event, append_id, add_input}
use entourage.Sessions.Mailing.Outcome.{append_event-Appended, session-append_event}
use entourage.Sessions.Table.Rows.{session-id}
use entourage.Sessions.Valid.Mail.{has_mail-add_input}
use entourage.Sessions.Checkpoint.{lease_live}

has_input-add_input :
    (db : Store) (id event_id : String) (event : Event)
    → has_input (add_input db id event_id event) id event_id ≡ true
unfolding has_input add_input
has_input-add_input db id event_id event = ground (
  arith,
  any-append (keyed id event_id) db.inputs
      (record { session_id = id; event_id = event_id; event = event; incorporated = false } ∷ []),
  eq_refl id,
  eq_refl event_id,
)

append_known :
    (db d : Store) (id : String) (event : Event) (event_id : String) (row : Session) {new : Bool}
    {db' : Store}
    → event.event_id ≡ some event_id
    → append_event db id event false ≡ returns (new, db')
    → session d id ≡ some row
    → has_input d id event_id ≡ true
    → append_event d id event false ≡ returns (false, d)
unfolding append_event append_id
append_known db d id event event_id row named h found known = elim (Bool-cases (event_id == "")) [
  | inl empty ↦ absurd (ground arith)
  | inr named' ↦ elim (Bool-cases (starts_with event_id "timer:")) [
    | inl reserved ↦ absurd (ground arith)
    | inr plain ↦ rw (named, append_event) (rw named' (rw plain (rw found (rw known))))
  ]
]

-- Appending an event again, after a call that took it, reports a duplicate and changes nothing.
pub append_again :
    (db db' : Store) (id : String) (event : Event) (new : Bool)
    → append db id event ≡ returns (new, db')
    → append db' id event ≡ returns (false, db')
unfolding append
append_again db db' id event new h = elim (append_event-Appended db id event false h) [
  | inl (old, same) ↦
      subst (λ d. append_event d id event false ≡ returns (false, d)) (sym same) (h ∙ ground arith)
  | inr (event_id, row, named, found, _, _, _, e) ↦
      append_known db db' id event event_id row named h
        (session-append_event db id event false h id ∙ found)
        (subst (λ d. has_input d id event_id ≡ true) (sym e)
          (has_input-add_input db id event_id event))
]

pending-add_input :
    (db : Store) (id event_id j : String) (event : Event)
    → pending (add_input db id event_id event) j
      ≡ pending db j ++ (if id == j then event ∷ [] else [])
unfolding pending add_input
pending-add_input db id event_id j event =
    rw (select-append (is_pending j) db.inputs) (rw map-append (unfold select in ground arith))

-- Mail that is taken stands last in the session's queue, no other queue changes, and no session does.
pub append_queues :
    (db db' : Store) (id j : String) (event : Event)
    → append db id event ≡ returns (true, db')
    → (pending db' j ≡ pending db j ++ (if id == j then event ∷ [] else []))
      × (session db' j ≡ session db j)
unfolding append
append_queues db db' id j event h = elim (append_event-Appended db id event false h) [
  | inl (old, _) ↦ absurd (ground arith)
  | inr (event_id, _, _, _, _, _, _, e) ↦ (
    ap (λ d. pending d j) e ∙ pending-add_input db id event_id j event,
    session-append_event db id event false h j,
  )
]

mailed-is_ready :
    (db : Store) (now : ℕ) (s : Session)
    → terminal s.status ≡ false
    → lease_live now s.lease_until ≡ false
    → has_mail db s.id ≡ true
    → is_ready db now s ≡ true
unfolding is_ready
mailed-is_ready db now s h₁ h₂ h₃ = ground arith

-- A parked session that gets mail can be claimed at any time, unless a lease or a backoff holds it.
pub append_wakes :
    (db db' : Store) (id : String) (event : Event) (row : Session) (now : ℕ)
    → append db id event ≡ returns (true, db')
    → session db id ≡ some row
    → terminal row.status ≡ false
    → lease_live now row.lease_until ≡ false
    → (session db' id ≡ some row) × (is_ready db' now row ≡ true)
unfolding append
append_wakes db db' id event row now h found open_row free =
    elim (append_event-Appended db id event false h) [
      | inl (old, _) ↦ absurd (ground arith)
      | inr (event_id, _, _, _, _, _, _, e) ↦ (
        session-append_event db id event false h id ∙ found,
        mailed-is_ready db' now row open_row free (
            ap (λ d. has_mail d row.id) e
            ∙ has_mail-add_input db id event_id row.id event
            ∙ ground (arith, session-id db id row found, eq_refl id)),
      )
    ]

-- ===== src/Ingress/Again.antt =====
-- Delivering an event again (`deliver` of entourage/session_ingress.py).
use entourage.Prelude.{
  String, Option, some, Bool, true, false, not, ◌&&◌, ◌==◌, ◌≡◌, ◌≢◌, refl, sym, ap, subst, ◌∙◌,
  inl, inr, arith, Bool-cases, Option-cases, Result-cases, is_some, starts_with, Dict, Result,
  returns, raises,
}
use entourage.Mail.{Json, Event}
use entourage.Sessions.Types.{Store, Error, session_already_exists}
use entourage.Sessions.Table.{session}
use entourage.Sessions.Mailing.{create, append, append_event, append_id}
use entourage.Sessions.Mailing.Outcome.{session-append_event}
use entourage.Sessions.Service.Senders.{append_again}
use entourage.Executables.Context.{is_object}
use entourage.Ingress.{
  Member, outcome, Delivery, creation, target, ensured, reach, ensure, appended, append_to, deliver,
}

-- A session that takes mail is there.
append_finds :
    (db db' : Store) (id : String) (e : Event) (new : Bool)
    → append db id e ≡ returns (new, db')
    → is_some (session db' id) ≡ true
unfolding append append_event append_id
append_finds db db' id e new h = elim (Option-cases (session db id)) [
  | inr (row, found) ↦ ground (arith, found, session-append_event db id e false h id)
  | inl missing ↦ elim (Option-cases e.event_id) [
    | inl unnamed ↦ absurd (ground (arith, h, unnamed))
    | inr (event_id, named) ↦ elim (Bool-cases (event_id == "")) [
      | inl blank ↦ absurd (ground (arith, h, named, blank))
      | inr full ↦ elim (Bool-cases (starts_with event_id "timer:")) [
        | inl reserved ↦ absurd (ground (arith, h, named, full, reserved))
        | inr plain ↦ absurd (ground (arith, h, named, full, plain, missing))
      ]
    ]
  ]
]

-- A creation that returned, or found the session there, finds it there ever after.
create_again :
    (db db₁ db' : Store) (id executable : String) (state : Json) (created : Bool)
    → creation db (create db id executable state) ≡ outcome (returns created) db₁
    → is_some (session db' id) ≡ true
    → create db' id executable state ≡ raises session_already_exists
unfolding create
create_again db db₁ db' id executable state created h there =
    elim (Bool-cases (not (id == "") && not (executable == ""))) [
      | inr unnamed ↦ absurd (ground (arith, h, unnamed))
      | inl named ↦ elim (Bool-cases (is_object state)) [
        | inr odd ↦ absurd (ground (arith, h, named, odd))
        | inl object ↦ ground (arith, named, object, there)
      ]
    ]

-- An ensured delivery, and the append that follows it.
append_to-inv :
    (e : Event) (session_id : String) (result : Result Error Bool) (store : Store) (d : Delivery)
    (db' : Store)
    → append_to e (ensured session_id (outcome result store)) ≡ outcome (returns d) db'
    → (created new : Bool) × (result ≡ returns created)
      × (append store session_id e ≡ returns (new, db'))
      × (d.session_id ≡ session_id)
append_to-inv e session_id (raises f) store d db' h = absurd (ground (arith, h))
append_to-inv e session_id (returns created) store d db' h =
    elim (Result-cases (append store session_id e)) [
      | inr (f, lost) ↦ absurd (ground (arith, h, lost))
      | inl ((new, db''), sent) ↦
          let same : db'' ≡ db' = ground (arith, h, sent) in
          (
            created,
            new,
            refl,
            subst (λ x. append store session_id e ≡ returns (new, x)) same sent,
            ground (arith, h, sent),
          )
    ]

deliver_lost :
    (members : Dict Member) (db db' : Store) (alias : String) (e : Event)
    (conversation : Option String) (d : Delivery) (f : Error)
    → target members alias conversation (some e) ≡ raises f
    → deliver members db alias e conversation ≢ outcome (returns d) db'
unfolding deliver ensure
deliver_lost members db db' alias e conversation d f lost h =
    let gone : append_to e (reach db (raises f)) ≡ outcome (returns d) db' =
      ap (λ r. append_to e (reach db r)) (sym lost) ∙ h in
    ground (arith, gone)

deliver_reached :
    (members : Dict Member) (db : Store) (alias : String) (e : Event) (conversation : Option String)
    (m : Member) (id : String)
    → target members alias conversation (some e) ≡ returns (m, id)
    → deliver members db alias e conversation
      ≡ append_to e (ensured id (creation db (create db id m.executable m.initial_state)))
unfolding deliver ensure
deliver_reached members db alias e conversation m id reached =
    ap (λ r. append_to e (reach db r)) reached

-- A delivery that returned, made again: it reaches the same session, creates and appends nothing, and
-- leaves the database as it is.
pub deliver_again :
    (members : Dict Member) (db db' : Store) (alias : String) (e : Event)
    (conversation : Option String) (d : Delivery)
    → deliver members db alias e conversation ≡ outcome (returns d) db'
    → deliver members db' alias e conversation
      ≡ outcome (returns (record d { created = false; appended = false })) db'
deliver_again members db db' alias e conversation d h =
    elim (Result-cases (target members alias conversation (some e))) [
      | inr (f, lost) ↦ absurd (deliver_lost members db db' alias e conversation d f lost h)
      | inl ((m, id), reached) ↦
          let o = creation db (create db id m.executable m.initial_state) in
          let h₁ : append_to e (ensured id o) ≡ outcome (returns d) db' =
            sym (deliver_reached members db alias e conversation m id reached) ∙ h in
          let (created, new, made, sent, same) = append_to-inv e id o.result o.store d db' h₁ in
          let there = append_finds o.store db' id e new sent in
          let again =
            create_again db o.store db' id m.executable m.initial_state created
              (ap (λ r. outcome r o.store) made) there in
          let twice = append_again o.store db' id e new sent in
          deliver_reached members db' alias e conversation m id reached
          ∙ ap (λ made. append_to e (ensured id (creation db' made))) again
          ∙ ap
              (λ sent.
                appended (record { session_id = id; created = false; appended = false }) db' sent)
              twice
          ∙ ap
              (λ i.
                outcome (returns (record { session_id = i; created = false; appended = false }))
                  db')
              (sym same)
    ]

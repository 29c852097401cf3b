-- ===== src/Sessions/Service/Rows.antt =====
-- The table of sessions through the steps of a commit: the children's rows are added, and taking in and
-- publishing mail leave it as it is (`commit` of sessions.py).
use entourage.Prelude.{
  if◌then◌else◌, String, none, some, List, [], ◌∷◌, ◌++◌, false, ◌≡◌, refl, ap, subst, ◌∙◌, inl,
  inr, arith, returns, map, All, ◌==◌, eq_iff, eq_refl, >>=-inv, require,
}
use mathlib.Core.List.{append-nil, append_assoc}
use entourage.Mail.{Json}
use entourage.Sessions.Types.{Store, Session, Spawn, Publication, value_error}
use entourage.Sessions.Table.{session, is_bound}
use entourage.Sessions.Mailing.{append_event, add_input, create, new_session}
use entourage.Sessions.Mailing.Outcome.{
  append_event-Appended, session-append_event, create-inv, session-new_session,
}
use entourage.Sessions.Checkpoint.{create_children, incorporate, incorporate_one, publish_all}

pub session-publish_all :
    (db : Store) (mail : List Publication) {db' : Store}
    → publish_all db mail ≡ returns db'
    → (j : String) → session db' j ≡ session db j
unfolding publish_all
session-publish_all db [] h j = ground arith
session-publish_all db (p ∷ rest) h j =
    let ((new, db₁), sent, h₁) = >>=-inv (append_event db p.session_id p.event false) _ h in
    session-publish_all db₁ rest h₁ j ∙ session-append_event db p.session_id p.event false sent j

pub session-incorporate :
    (db : Store) (id : String) (event_ids : List String) (j : String)
    → session (incorporate db id event_ids) j ≡ session db j
unfolding incorporate
session-incorporate db id [] j = refl
session-incorporate db id (e ∷ rest) j =
    session-incorporate (incorporate_one db id e) id rest j ∙ unfold session incorporate_one in refl

session-create :
    (db : Store) (id executable : String) (state : Json) {u : Unit {0}} {db' : Store}
    → create db id executable state ≡ returns (u, db')
    → (session db id ≡ none)
      × ((j : String)
          → session db' j
            ≡ (if id == j then some (new_session id executable state) else session db j))
session-create db id executable state h =
    let (free, made) = create-inv db id executable state h in
    (free, λ j. ap (λ d. session d j) made ∙ session-new_session db id executable state free j)

-- A session that is there is not touched by the creation of children.
pub create_children-keeps :
    (db : Store) (children : List Spawn) {db' : Store}
    → create_children db children ≡ returns db'
    → (j : String) (s : Session) → session db j ≡ some s
    → session db' j ≡ some s
unfolding create_children
create_children-keeps db [] h j s found = subst (λ d. session d j ≡ some s) (ground arith) found
create_children-keeps db (c ∷ rest) h j s found =
    let (_, _, h₁) = >>=-inv (require (is_bound db c.executable) value_error) _ h in
    let ((_, db₁), made, h₂) = >>=-inv (create db c.session_id c.executable c.state) _ h₁ in
    let (free, reads) = session-create db c.session_id c.executable c.state made in
    create_children-keeps db₁ rest h₂ j s (ground (arith, reads j, eq_iff c.session_id j))

abbrev pub Born : Store → Spawn → Type 0
Born db c = session db c.session_id ≡ some (new_session c.session_id c.executable c.state)

pub create_children-Born :
    (db : Store) (children : List Spawn) {db' : Store}
    → create_children db children ≡ returns db'
    → All (Born db') children
unfolding create_children
create_children-Born db [] h = tt
create_children-Born db (c ∷ rest) h =
    let (_, _, h₁) = >>=-inv (require (is_bound db c.executable) value_error) _ h in
    let ((_, db₁), made, h₂) = >>=-inv (create db c.session_id c.executable c.state) _ h₁ in
    let (free, reads) = session-create db c.session_id c.executable c.state made in
    (
      create_children-keeps db₁ rest h₂ c.session_id _
          (ground (arith, reads c.session_id, eq_refl c.session_id)),
      create_children-Born db₁ rest h₂,
    )

-- The rows that children are created with.
abbrev pub born_rows : List Spawn → List Session
born_rows children = map (λ (c : Spawn). new_session c.session_id c.executable c.state) children

pub sessions-create_children :
    (db : Store) (children : List Spawn) {db' : Store}
    → create_children db children ≡ returns db'
    → db'.sessions ≡ db.sessions ++ born_rows children
unfolding create_children
sessions-create_children db [] h = rw append-nil (ground arith)
sessions-create_children db (c ∷ rest) h =
    let (_, _, h₁) = >>=-inv (require (is_bound db c.executable) value_error) _ h in
    let ((_, db₁), made, h₂) = >>=-inv (create db c.session_id c.executable c.state) _ h₁ in
    sessions-create_children db₁ rest h₂
    ∙ ap (λ (d : Store). d.sessions ++ born_rows rest)
        (create-inv db c.session_id c.executable c.state made).1
    ∙ append_assoc db.sessions _ (born_rows rest)

pub sessions-incorporate :
    (db : Store) (id : String) (event_ids : List String)
    → (incorporate db id event_ids).sessions ≡ db.sessions
unfolding incorporate incorporate_one
sessions-incorporate db id [] = refl
sessions-incorporate db id (e ∷ rest) = sessions-incorporate (incorporate_one db id e) id rest

pub sessions-publish_all :
    (db : Store) (mail : List Publication) {db' : Store}
    → publish_all db mail ≡ returns db'
    → db'.sessions ≡ db.sessions
unfolding publish_all add_input
sessions-publish_all db [] h = ground arith
sessions-publish_all db (p ∷ rest) h =
    let ((new, db₁), sent, h₁) = >>=-inv (append_event db p.session_id p.event false) _ h in
    let later = sessions-publish_all db₁ rest h₁ in
    elim (append_event-Appended db p.session_id p.event false sent) [
      | inl (_, same) ↦ later ∙ ap (λ (d : Store). d.sessions) same
      | inr (_, _, _, _, _, _, _, made) ↦ later ∙ ap (λ (d : Store). d.sessions) made
    ]

-- ===== src/Sessions/Service/Checkpoints.antt =====
-- What a commit leaves behind in the inputs.
use entourage.Prelude.{
  Bool, mem_text, if◌then◌else◌, ℕ, String, List, [], ◌∷◌, ◌++◌, true, false, ◌&&◌, ◌||◌, ◌≡◌, refl,
  sym, ap, ◌∙◌, inl, inr, arith, returns, map, update, All, ◌==◌, eq_iff, >>=-inv, require, any,
  Bool-cases, Option-cases,
}
use mathlib.Core.List.{append-nil, append_assoc}
use entourage.Sessions.Types.{Store, Input, Activation, Spawn, Publication, value_error}
use entourage.Sessions.Table.{session, set_session, keyed, is_bound, has_input}
use entourage.Sessions.Mailing.{append_event, append_id, add_input, create}
use entourage.Sessions.Mailing.Outcome.{create-inv}
use entourage.Sessions.Checkpoint.{
  Proposal, commit, create_children, incorporate, incorporate_one, publish_all, id_of,
}
use entourage.Sessions.Checkpoint.Outcome.{commit-Committed}

-- The inputs of a session with the listed events marked as incorporated.
abbrev pub marked : String → List String → Input → Input
marked id event_ids i = record i {
  incorporated = i.incorporated || (i.session_id == id && mem_text i.event_id event_ids);
}

map-marked_one :
    (id event_id : String) (rest : List String) (rows : List Input)
    → map
        (marked id rest)
        (update (keyed id event_id) (λ (i : Input). record i { incorporated = true }) rows)
      ≡ map (marked id (event_id ∷ rest)) rows
unfolding update
map-marked_one id event_id rest [] = refl
map-marked_one id event_id rest (i ∷ rows) = ground (
  arith,
  map-marked_one id event_id rest rows,
  eq_iff i.event_id event_id,
  eq_iff event_id i.event_id,
)

map-marked_nil : (id : String) (rows : List Input) → map (marked id []) rows ≡ rows
map-marked_nil id [] = refl
map-marked_nil id (i ∷ rows) = ground (arith, map-marked_nil id rows)

inputs-incorporate :
    (db : Store) (id : String) (event_ids : List String)
    → (incorporate db id event_ids).inputs ≡ map (marked id event_ids) db.inputs
unfolding incorporate
inputs-incorporate db id [] = sym (map-marked_nil id db.inputs)
inputs-incorporate db id (e ∷ rest) =
    inputs-incorporate (incorporate_one db id e) id rest
    ∙ unfold incorporate_one in map-marked_one id e rest db.inputs

inputs-create_children :
    (db : Store) (children : List Spawn) {db' : Store}
    → create_children db children ≡ returns db'
    → db'.inputs ≡ db.inputs
unfolding create_children
inputs-create_children db [] h = ground arith
inputs-create_children db (c ∷ rest) h =
    let (_, _, h₁) = >>=-inv (require (is_bound db c.executable) value_error) _ h in
    let ((_, db₁), made, h₂) = >>=-inv (create db c.session_id c.executable c.state) _ h₁ in
    inputs-create_children db₁ rest h₂
    ∙ ap (λ (d : Store). d.inputs) (create-inv db c.session_id c.executable c.state made).1

abbrev pub Pending : Input → Type 0
Pending i = i.incorporated ≡ false

-- The input that a publication becomes.
abbrev pub published_input : Publication → Input
published_input p = record {
  session_id = p.session_id;
  event_id = id_of p.event;
  event = p.event;
  incorporated = false;
}

-- The publications that are new to the inputs there are: those whose session has no input with their
-- event id, neither before nor by an earlier publication.
abbrev pub new_inputs : List Input → List Publication → List Input
new_inputs rows [] = []
new_inputs rows (p ∷ ps) =
    let i = published_input p in
    if any (keyed p.session_id (id_of p.event)) rows
    then new_inputs rows ps
    else i ∷ new_inputs (rows ++ i ∷ []) ps

new_inputs-Pending :
    (rows : List Input) (mail : List Publication) → All Pending (new_inputs rows mail)
new_inputs-Pending rows [] = tt
new_inputs-Pending rows (p ∷ ps) =
    elim (Bool-cases (any (keyed p.session_id (id_of p.event)) rows)) [
      | inl there ↦ rw there (new_inputs-Pending rows ps)
      | inr absent ↦ rw absent (refl, new_inputs-Pending (rows ++ published_input p ∷ []) ps)
    ]

-- An append of mail that has not come yet adds one row, and of mail that has come none.
inputs-append_event :
    (db : Store) (p : Publication) {new : Bool} {db' : Store}
    → append_event db p.session_id p.event false ≡ returns (new, db')
    → db'.inputs ≡ (
        if any (keyed p.session_id (id_of p.event)) db.inputs
        then db.inputs
        else db.inputs ++ published_input p ∷ [])
unfolding append_event append_id add_input has_input
inputs-append_event db p h = elim (Option-cases p.event.event_id) [
  | inl unnamed ↦ absurd (ground (arith, h, unnamed))
  | inr (event_id, named) ↦ elim (Option-cases (session db p.session_id)) [
    | inl missing ↦ absurd (ground (arith, h, named, missing))
    | inr (row, found) ↦ elim (Bool-cases (any (keyed p.session_id event_id) db.inputs)) [
      | inl there ↦ ground (arith, h, named, found, there)
      | inr absent ↦ ground (arith, h, named, found, absent)
    ]
  ]
]

inputs-publish_all :
    (db : Store) (mail : List Publication) {db' : Store}
    → publish_all db mail ≡ returns db'
    → db'.inputs ≡ db.inputs ++ new_inputs db.inputs mail
unfolding publish_all
inputs-publish_all db [] h = rw append-nil (ground arith)
inputs-publish_all db (p ∷ rest) h =
    let ((new, db₁), sent, h₁) = >>=-inv (append_event db p.session_id p.event false) _ h in
    let later = inputs-publish_all db₁ rest h₁ in
    let one = inputs-append_event db p sent in
    elim (Bool-cases (any (keyed p.session_id (id_of p.event)) db.inputs)) [
      | inl there ↦
          let same : db₁.inputs ≡ db.inputs = one ∙ rw there refl in
          rw there (later ∙ ap (λ rows. rows ++ new_inputs rows rest) same)
      | inr absent ↦
          let more : db₁.inputs ≡ db.inputs ++ published_input p ∷ [] = one ∙ rw absent refl in
          rw absent (
            later
            ∙ ap (λ rows. rows ++ new_inputs rows rest) more
            ∙ append_assoc db.inputs (published_input p ∷ []) _)
    ]

-- A commit loses no mail: the inputs keep their order and content, exactly the listed events of the
-- activation's session are newly incorporated, and behind them stand, pending and in order, exactly the
-- publications that are new to the inputs.
pub commit_inputs :
    (db db' : Store) (a : Activation) (p : Proposal) (now held_at : ℕ)
    → commit db a p now held_at ≡ returns (tt, db')
    → let kept = map (marked a.session_id p.incorporated) db.inputs in
      (db'.inputs ≡ kept ++ new_inputs kept p.publish) × All Pending (new_inputs kept p.publish)
commit_inputs db db' a p now held_at h =
    let c = commit-Committed db a p now held_at h in
    let kept =
      inputs-incorporate c.with_children a.session_id p.incorporated
      ∙ ap (map (marked a.session_id p.incorporated))
          (inputs-create_children db p.spawn c.created) in
    (
      ap (λ (d : Store). d.inputs) c.result
          ∙ unfold set_session in
            inputs-publish_all _ p.publish c.sent
            ∙ ap (λ rows. rows ++ new_inputs rows p.publish) kept,
      new_inputs-Pending (map (marked a.session_id p.incorporated) db.inputs) p.publish,
    )

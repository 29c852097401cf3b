-- ===== src/Sessions/Valid/Incorporate.antt =====
-- The invariant through the incorporation of events.
use entourage.Prelude.{
  String, List, [], ◌∷◌, true, false, ◌≡◌, refl, arith, any, All-update, update,
}
use entourage.Sessions.Types.{Store, Input}
use entourage.Sessions.Table.{session, keyed, is_pending}
use entourage.Sessions.Ready.{has_mail}
use entourage.Sessions.Checkpoint.{incorporate, incorporate_one}
use entourage.Sessions.Valid.{IsValid, DistinctKeys, Owned}

mark_all : (session_id event_id : String) → List Input → List Input
mark_all session_id event_id =
    update (keyed session_id event_id) (λ (i : Input). record i { incorporated = true })

any-keyed-mark_all :
    (a b session_id event_id : String) (rows : List Input)
    → any (keyed a b) (mark_all session_id event_id rows) ≡ any (keyed a b) rows
unfolding mark_all update
any-keyed-mark_all a b session_id event_id [] = refl
any-keyed-mark_all a b session_id event_id (i ∷ rest) =
    ground (arith, any-keyed-mark_all a b session_id event_id rest)

DistinctKeys-mark_all :
    (session_id event_id : String) (rows : List Input)
    → DistinctKeys rows
    → DistinctKeys (mark_all session_id event_id rows)
unfolding mark_all update
DistinctKeys-mark_all session_id event_id [] h = tt
DistinctKeys-mark_all session_id event_id (i ∷ rest) h = (
  ground (arith, any-keyed-mark_all i.session_id i.event_id session_id event_id rest),
  DistinctKeys-mark_all session_id event_id rest h.1,
)

any-pending-mark_all :
    (j session_id event_id : String) (rows : List Input)
    → any (is_pending j) rows ≡ false
    → any (is_pending j) (mark_all session_id event_id rows) ≡ false
unfolding mark_all update
any-pending-mark_all j session_id event_id [] h = refl
any-pending-mark_all j session_id event_id (i ∷ rest) h =
    ground (arith, any-pending-mark_all j session_id event_id rest)

incorporate_one-IsValid :
    (db : Store) (session_id event_id : String)
    → IsValid db
    → IsValid (incorporate_one db session_id event_id)
unfolding incorporate_one
incorporate_one-IsValid db session_id event_id v = record {
  keys = v.keys;
  rows = unfold session in v.rows;
  inputs = unfold mark_all in DistinctKeys-mark_all session_id event_id db.inputs v.inputs;
  owned =
      unfold session in
      All-update (Owned db) (keyed session_id event_id) _ db.inputs (λ i h. h) v.owned;
  settled = λ j s h c.
      unfold has_mail mark_all in
      any-pending-mark_all j session_id event_id db.inputs (v.settled j s (unfold session in h) c);
}

-- Incorporation keeps the invariant.
pub incorporate-IsValid :
    (db : Store) (session_id : String) (event_ids : List String)
    → IsValid db
    → IsValid (incorporate db session_id event_ids)
unfolding incorporate
incorporate-IsValid db session_id [] v = v
incorporate-IsValid db session_id (event_id ∷ rest) v =
    incorporate-IsValid (incorporate_one db session_id event_id) session_id rest
      (incorporate_one-IsValid db session_id event_id v)

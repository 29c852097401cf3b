-- ===== src/Sessions/Purge.antt =====
-- `purge` of sessions.py: old complete sessions go, with their inputs.
pub mod Outcome
use entourage.Prelude.{
  ℕ, String, Option, none, some, List, [], ◌∷◌, Bool, true, false, ◌&&◌, not, ◌==◌, ltb, leb, map,
  length, Result, returns, raises, ◌>>=◌, ◌>>◌, require, select, if◌then◌else◌,
}
use entourage.Sessions.Types.{
  Store, Session, Input, Instant, at, Error, value_error, Tx, is_complete,
}
use entourage.Sessions.Mailing.{limited, positive}

abbrev pub completed_earlier : ℕ → Option ℕ → Bool
completed_earlier before none = false
completed_earlier before (some t) = ltb t before

-- `status = 'complete' AND completed_at IS NOT NULL AND completed_at < ?`.
abbrev pub purgeable : ℕ → Session → Bool
purgeable before s = is_complete s.status && completed_earlier before s.completed_at

abbrev pub completed_le : Session → Session → Bool
completed_le s t = elim s.completed_at [
  | none ↦ true
  | some a ↦ elim t.completed_at [ none ↦ false | some b ↦ leb a b ]
]

-- `ORDER BY completed_at, rowid`: a stable sort; NULL comes first.
unfoldable pub insert_completed : Session → List Session → List Session
insert_completed s [] = s ∷ []
insert_completed s (t ∷ rest) =
    let later = t ∷ insert_completed s rest in if completed_le s t then s ∷ t ∷ rest else later

unfoldable pub by_completion : List Session → List Session
by_completion [] = []
by_completion (s ∷ rest) = insert_completed s (by_completion rest)

-- `DELETE FROM wake_inputs WHERE session_id = ?`, and the same for the session.
unfoldable pub delete_one : Store → String → Store
delete_one db id = record db {
  sessions = select (λ (s : Session). not (s.id == id)) db.sessions;
  inputs = select (λ (i : Input). not (i.session_id == id)) db.inputs;
}

unfoldable pub delete_sessions : Store → List String → Store
delete_sessions db [] = db
delete_sessions db (id ∷ rest) = delete_sessions (delete_one db id) rest

unfoldable pub purge_ids : Store → ℕ → Option ℕ → List String
purge_ids db before limit =
    map (λ (s : Session). s.id)
      (limited limit (by_completion (select (purgeable before) db.sessions)))

abbrev pub finite : Instant → Result Error ℕ
finite (at t) = returns t
finite _ = raises value_error

unfoldable pub purge : Store → Instant → Option ℕ → Tx ℕ
purge db completed_before limit = do
  before ← finite completed_before
  require (positive limit) value_error
  let ids = purge_ids db before limit
  returns (length ids, delete_sessions db ids)

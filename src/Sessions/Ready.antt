-- ===== src/Sessions/Ready.antt =====
-- `_READY` of sessions.py, in SQL's three-valued logic: `none` is NULL.
pub mod NullSafe
use entourage.Prelude.{
  ℕ, String, Option, none, some, List, Bool, true, false, ◌&&◌, not, ◌==◌, leb, any, if◌then◌else◌,
}
use entourage.Sessions.Types.{Session, Input, Store, Status, terminal, mid_step}

abbrev pub Truth : Type 0
Truth = Option Bool

abbrev pub sql_not : Truth → Truth
sql_not none = none
sql_not (some b) = some (not b)

-- FALSE decides a conjunction, TRUE a disjunction; otherwise NULL spreads.
abbrev pub sql_and : Truth → Truth → Truth
sql_and (some false) q = some false
sql_and (some true) q = q
sql_and none (some false) = some false
sql_and none q = none

abbrev pub sql_or : Truth → Truth → Truth
sql_or (some true) q = some true
sql_or (some false) q = q
sql_or none (some true) = some true
sql_or none q = none

abbrev pub is_null {ℓ} : {A : Type ℓ} → Option A → Truth
is_null none = some true
is_null (some a) = some false

abbrev pub sql_le : Option ℕ → ℕ → Truth
sql_le none now = none
sql_le (some t) now = some (leb t now)

-- A WHERE clause keeps the rows on which it is TRUE.
abbrev pub holds : Truth → Bool
holds (some true) = true
holds _ = false

-- `EXISTS (SELECT 1 FROM wake_inputs i WHERE i.session_id = s.id AND i.incorporated = 0)`.
unfoldable pub has_mail : Store → String → Bool
has_mail db id = any (λ (i : Input). i.session_id == id && not i.incorporated) db.inputs

unfoldable pub ready_clause : Store → ℕ → Session → Truth
ready_clause db now s = sql_and (some (not (terminal s.status))) (
    sql_and (sql_or (is_null s.lease_until) (sql_le s.lease_until now)) (
      sql_or (some (mid_step s.status)) (
        sql_or (sql_and (sql_not (is_null s.deadline)) (sql_le s.deadline now))
          (some (has_mail db s.id)))))

unfoldable pub is_ready : Store → ℕ → Session → Bool
unfolding ready_clause
is_ready db now s = holds (ready_clause db now s)

-- ===== src/Exchanges/Call.antt =====
-- Requests through the context of an activation: `Exchanges.request` and `Exchanges.call`
-- (entourage/exchanges.py) over `Context.request`, `Context.spawn` and `Context.reply`
-- (entourage/executables.py).
use entourage.Prelude.{
  ◌+++◌, String, Option, none, some, List, [], ◌∷◌, ◌++◌, ◌≡◌, refl, sym, ap, ◌∙◌, not, ◌==◌,
  eq_refl, arith, Result, returns, ◌>>=◌, >>=-inv, >>-inv, Dict, lookup, lookup-assign, assign,
  lookup-pop,
}
use entourage.Mail.{Json, Event}
use entourage.Sessions.Types.{Publication}
use entourage.Executables.Types.{Context, Failure, value_error}
use entourage.Executables.Context as Staged
use entourage.Executables.Context.{mail_id, mail, required}
use entourage.Exchanges.{Pending, request, matched, reply_of, ingest, label_or}

module _ (identity : List String → String) where
  -- `request`: stages the mail and remembers the request.
  unfoldable pub ask :
      Dict Pending
      → Context
      → String
      → Json
      → String
      → Option String
      → Result Failure (Context × Dict Pending × String)
  ask table c destination payload key label = do
    (c', id) ← Staged.request identity c destination payload key
    returns (c', request table id destination key label, id)

  -- `call`: a child and its request in one checkpoint.
  unfoldable pub call :
      Dict Pending
      → Context
      → String
      → Json
      → Json
      → String
      → Option String
      → Result Failure (Context × Dict Pending × String)
  call table c definition state payload key label = do
    (c', child) ← Staged.spawn identity c definition state key
    (c'', table', id) ← ask table c' child payload key label
    returns (c'', table', child)

  last-append : (xs : List Publication) (x y : Publication) → xs ++ x ∷ [] ≡ xs ++ y ∷ [] → x ≡ y
  last-append [] x y h = ground (arith, h)
  last-append (z ∷ xs) x y h = last-append xs x y (ground (arith, h))

  request-inv :
      (c : Context) (destination : String) (payload : Json) (key : String) {c' : Context}
      {id : String}
      → Staged.request identity c destination payload key ≡ returns (c', id)
      → (id ≡ mail_id identity c key)
        × (c'.publish
            ≡ c.publish
              ++ record {
                session_id = destination;
                event =
                    record (mail identity c payload key "request" (some (mail_id identity c key))) {
                      reply_to = some c.session_id;
                    };
              }
                ∷ [])
  unfolding Staged.request
  request-inv c destination payload key h =
      let (_, e) = >>-inv (not (key == "")) value_error _ h in
      (ground (arith, e), ground (arith, e))

  reply-inv :
      (c : Context) (asked : Event) (payload : Json) (key id to : String) {c' : Context}
      {event_id : String}
      → asked.request_id ≡ some id
      → asked.reply_to ≡ some to
      → Staged.reply identity c asked payload key ≡ returns (c', event_id)
      → c'.publish
        ≡ c.publish
          ++ record {
            session_id = to;
            event =
                mail identity c payload ("reply:" +++ identity (id ∷ key ∷ [])) "result" (some id);
          }
            ∷ []
  unfolding Staged.reply Staged.send
  reply-inv c asked payload key id to {c'} {event_id} request_id reply_to h =
      let h' : Staged.send identity c to payload ("reply:" +++ identity (id ∷ key ∷ [])) "result"
            (some id)
          ≡ returns (c', event_id) =
        ground (arith, request_id, reply_to, h) in
      let (_, e) = >>-inv (not (("reply:" +++ identity (id ∷ key ∷ [])) == "")) value_error _ h' in
      ground (arith, e)

  result_matched :
      (table : Dict Pending) (p : Pending) (e : Event) (id : String)
      → lookup id table ≡ some p
      → e.kind ≡ some "result"
      → e.request_id ≡ some id
      → e.source ≡ some p.to
      → matched table e ≡ some (reply_of e "result" id p)
  unfolding matched
  result_matched table p e id pending kind request_id source =
      ground (arith, pending, kind, request_id, source, eq_refl p.to)

  -- A request made on an activation's context and remembered, and the reply that its addressee makes
  -- on its own context to the request's event: the reply is addressed to the asking session, `ingest`
  -- there reports it as the one result of that request, and the request is closed.
  pub request_reply_roundtrip :
      (c c' provider provider' : Context) (table table' : Dict Pending) (payload answer : Json)
      (key key' id event_id : String) (label : Option String) (asked : Event)
      → ask table c provider.session_id payload key label ≡ returns (c', table', id)
      → c'.publish ≡ c.publish ++ record { session_id = provider.session_id; event = asked } ∷ []
      → Staged.reply identity provider asked answer key' ≡ returns (provider', event_id)
      → (e : Event) × (provider'.publish
          ≡ provider.publish ++ record { session_id = c.session_id; event = e } ∷ [])
        × ((ingest (e ∷ []) table').replies
            ≡ reply_of e "result" id
                (record { to = provider.session_id; label = label_or label key })
              ∷ [])
        × (lookup id (ingest (e ∷ []) table').table ≡ none)
  unfolding ask request ingest
  request_reply_roundtrip c c' provider provider' table table' payload answer key key' id event_id
        label asked h staged replied =
      let ((c₁, id₁), sent, e₁) =
        >>=-inv (Staged.request identity c provider.session_id payload key) _ h in
      let (id_is, publish_is) = request-inv c provider.session_id payload key sent in
      let p : Pending = record { to = provider.session_id; label = label_or label key } in
      let here : c₁ ≡ c' = ground (arith, e₁) in
      let same_id : id₁ ≡ id = ground (arith, e₁) in
      let table_is : assign id p table ≡ table' = ground (arith, e₁) in
      let q =
        last-append c.publish _ _
          (sym publish_is ∙ (ap (λ (x : Context). x.publish) here ∙ staged)) in
      let q_id : asked.request_id ≡ some id =
        sym (ap (λ (x : Publication). x.event.request_id) q) ∙ ap some (sym id_is ∙ same_id) in
      let q_to : asked.reply_to ≡ some c.session_id =
        sym (ap (λ (x : Publication). x.event.reply_to) q) in
      let out = reply-inv provider asked answer key' id c.session_id q_id q_to replied in
      let e =
        mail identity provider answer ("reply:" +++ identity (id ∷ key' ∷ [])) "result" (some id) in
      let pending : lookup id table' ≡ some p =
        ap (lookup id) (sym table_is) ∙ ground (arith, lookup-assign id id p table, eq_refl id) in
      let fits = result_matched table' p e id pending refl refl refl in
      (
        e,
        out,
        rw (fits, ingest) refl,
        rw (fits, ingest) (lookup-pop id id table' ∙ ground (arith, eq_refl id)),
      )

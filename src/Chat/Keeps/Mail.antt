-- ===== src/Chat/Keeps/Mail.antt =====
-- From the delivered mail to the committed state of the chat agent (`ChatAgent.resume` of turn.py).
use entourage.Prelude.{
  Option, ◌>>=◌, String, none, some, List, [], ◌∷◌, ◌++◌, Bool, true, false, ◌||◌, ◌==◌, ◌≡◌, ◌≢◌,
  refl, sym, ◌∙◌, All-mem_text, ap, subst, inl, inr, arith, Bool-cases, Option-cases, Result-cases,
  any, Dict, returns, >>=-inv, mem_text,
}
use entourage.Mail.{Json, Event, get}
use entourage.Mail.Json.{str}
use entourage.Sessions.Checkpoint.{text_eq}
use entourage.Executables.Types.{Context}
use entourage.Executables.Context.{required}
use entourage.Exchanges as Base
use entourage.Panel.{Work}
use entourage.Exchanges.{Reply, Pending, matched, close, reply_kinds}
use entourage.Panel.Ingest as Replies
use entourage.Panel.Ingest.{pending_all, Entries}
use entourage.Chat.Types.{Agent, Chat, Message, Outside, Proposed, message, event_ids}
use entourage.Chat.Inbox.{
  text_of_mail, failed_of, take_failed, take_one, take_message, take_request, Taken, goes_on,
  cancelled, is_message, fold_all,
}
use entourage.Chat.Turn.{take_all, resume}
use entourage.Chat.Keeps.{said, said-take_one}
use entourage.Chat.Keeps.Activation.{Commits, Commits-finish, Commits-proceed}

abbrev pub is_cancel : Event → Bool
is_cancel e = text_eq e.kind "cancel"

message_not_reply : (kind : String) → is_message kind ≡ true → mem_text kind reply_kinds ≡ false
message_not_reply kind h =
    All-mem_text (λ k. mem_text k reply_kinds ≡ false)
      ("user" ∷ "message" ∷ "steer" ∷ "answer" ∷ []) kind (refl, (refl, (refl, (refl, tt)))) h

message_not_cancel :
    (e : Event) (kind : String) → e.kind ≡ some kind → is_message kind ≡ true → is_cancel e ≡ false
message_not_cancel e kind given h = rw given (
    All-mem_text (λ k. (k == "cancel") ≡ false) ("user" ∷ "message" ∷ "steer" ∷ "answer" ∷ []) kind
      (refl, (refl, (refl, (refl, tt)))) h)

unmatched :
    (table : Dict Pending) (e : Event) (kind : String)
    → e.kind ≡ some kind
    → is_message kind ≡ true
    → matched table e ≡ none
unfolding matched
unmatched table e kind given h = elim (Option-cases e.request_id) [
  | inl plain ↦ ground (arith, given, plain)
  | inr (id, tagged) ↦ ground (arith, given, tagged, message_not_reply kind h)
]

or-inv : (a b : Bool) → (a || b) ≡ false → (a ≡ false) × (b ≡ false)
or-inv true b h = cc
or-inv false b h = (refl, h)

-- A message is among the mail that is no reply, and only mail delivered before it precedes it there.
others_split :
    (e : Event) (kind : String) (before after : List Event) (table : Dict Pending)
    → e.kind ≡ some kind
    → is_message kind ≡ true
    → any is_cancel before ≡ false
    → (b a : List Event) × ((Base.ingest (before ++ e ∷ after) table).others ≡ b ++ e ∷ a)
      × (any is_cancel b ≡ false)
unfolding Base.ingest
others_split e kind [] after table given h quiet = (
  [],
  (Base.ingest after table).others,
  rw (unmatched table e kind given h, Base.ingest) refl,
  refl,
)
others_split e kind (d ∷ ds) after table given h quiet =
    let (first, rest) = or-inv (is_cancel d) (any is_cancel ds) quiet in
    elim (Option-cases (matched table d)) [
      | inl other ↦
          let (b, a, same, calm) = others_split e kind ds after table given h rest in
          (d ∷ b, a, rw (other, Base.ingest) (ap (λ es. d ∷ es) same), rw first calm)
      | inr (r, replies) ↦
          let (b, a, same, calm) = others_split e kind ds after (close r table) given h rest in
          (b, a, rw (replies, Base.ingest) same, calm)
    ]

ingest-others :
    (shown : Json → String) (mail : List Event) (table : Dict Work) {rs : List Reply}
    {os : List Event} {es : Entries}
    → Replies.ingest shown mail table ≡ returns (rs, os, es)
    → (Base.ingest mail (pending_all table)).others ≡ os
unfolding Replies.ingest
ingest-others shown mail table h =
    let (entries, _, h₁) = >>=-inv (Replies.note_all shown _ _) _ h in ground (arith, h₁)

module _ (env : Outside) where
  message_goes_on :
      (c : Chat) (e : Event) {u : Taken} → take_message c e ≡ returns u → u ≢ cancelled
  message_goes_on c e h gone =
      let (t, _, h₁) = >>=-inv (text_of_mail e) _ h in ground (arith, h₁, gone)

  failed_goes_on :
      (c : Chat) (failed : Option Json) {u : Taken}
      → take_failed env c failed ≡ returns u
      → u ≢ cancelled
  failed_goes_on c none h gone = cc
  failed_goes_on c (some work) h gone = ground (arith, h, gone)

  -- Only cancel mail cancels.
  goes_on_without_cancel :
      (c : Chat) (e : Event) → is_cancel e ≡ false → take_one env c e ≢ returns cancelled
  unfolding take_one
  goes_on_without_cancel c e quiet h = elim (Option-cases e.kind) [
    | inl missing ↦ ground (arith, h, missing)
    | inr (kind, given) ↦ elim (Bool-cases (is_message kind)) [
      | inl to_model ↦ message_goes_on c e (ground (arith, h, given, to_model)) refl
      | inr other ↦ elim (Bool-cases (kind == "request")) [
        | inl asks ↦
            let h₀ : take_request c e ≡ returns cancelled = ground (arith, h, given, other, asks) in
            let (request_id, _, h₁) = >>=-inv (required e.request_id) _ h₀ in
            let (reply_to, _, h₂) = >>=-inv (required e.reply_to) _ h₁ in
            message_goes_on _ e h₂ refl
        | inr no_request ↦ elim (Bool-cases (text_eq e.source "timer")) [
          | inl timer ↦ ground (arith, h, given, other, no_request, timer, quiet)
          | inr no_timer ↦ elim (Bool-cases (kind == "system")) [
            | inr odd ↦ ground (arith, h, given, other, no_request, odd, quiet)
            | inl notice ↦
                let h₀ : (failed_of e.payload >>= take_failed env c) ≡ returns cancelled =
                  ground (arith, h, given, other, no_request, no_timer, notice, quiet) in
                let (failed, _, h₁) = >>=-inv (failed_of e.payload) _ h₀ in
                failed_goes_on c failed h₁ refl
          ]
        ]
      ]
    ]
  ]

  Commits-take_all :
      (p : Message → Bool) (agent : Agent) (x : Context) (c : Chat) (ids : List String)
      (es : List Event) (q : Proposed Chat)
      → take_all env agent x c ids es ≡ returns q
      → Commits p c q
  unfolding take_all
  Commits-take_all p agent x c ids [] q h before = Commits-proceed p env agent x c ids q h before
  Commits-take_all p agent x c ids (e ∷ es) q h before = elim (Result-cases (take_one env c e)) [
    | inr (f, raised) ↦ absurd (ground (arith, h, raised))
    | inl (cancelled, gone) ↦
        Commits-finish p env x c ids (str "") "cancelled" q (ground (arith, h, gone)) before
    | inl (goes_on c', taken) ↦
        Commits-take_all p agent x c' ids es q (ground (arith, h, taken))
          ((said-take_one p env c c' e taken).0 before)
  ]

  says-take_all :
      (p : Message → Bool) (agent : Agent) (x : Context) (c : Chat) (ids : List String)
      (b a : List Event) (e : Event) (kind : String) (t : Json) (q : Proposed Chat)
      → take_all env agent x c ids (b ++ e ∷ a) ≡ returns q
      → any is_cancel b ≡ false
      → e.kind ≡ some kind
      → is_message kind ≡ true
      → get "text" e.payload ≡ some t
      → p (message "user" t) ≡ true
      → said p q.state ≡ true
  unfolding take_all
  says-take_all p agent x c ids [] a e kind t q h quiet given to_model text holds =
      elim (Result-cases (take_one env c e)) [
        | inr (f, raised) ↦ absurd (ground (arith, h, raised))
        | inl (cancelled, gone) ↦
            absurd (goes_on_without_cancel c e (message_not_cancel e kind given to_model) gone)
        | inl (goes_on c', taken) ↦
            Commits-take_all p agent x c' ids a q (ground (arith, h, taken))
              ((said-take_one p env c c' e taken).1 kind t given to_model text holds)
      ]
  says-take_all p agent x c ids (d ∷ ds) a e kind t q h quiet given to_model text holds =
      elim (Result-cases (take_one env c d)) [
        | inr (f, raised) ↦ absurd (ground (arith, h, raised))
        | inl (cancelled, gone) ↦ absurd (goes_on_without_cancel c d (ground (arith, quiet)) gone)
        | inl (goes_on c', taken) ↦
            says-take_all p agent x c' ids ds a e kind t q (ground (arith, h, taken))
              (ground (arith, quiet)) given to_model text holds
      ]

  -- An activation that returns keeps the user's words: a message, steering or answer with a text that
  -- no cancel precedes in the delivery is in the proposed state as a user message, in the conversation
  -- or queued for it. `p` is any test that the message passes.
  pub resume_keeps_messages :
      (p : Message → Bool) (agent : Agent) (x : Context) (c : Chat) (before after : List Event)
      (e : Event) (kind : String) (t : Json) (q : Proposed Chat)
      → resume env agent x c (before ++ e ∷ after) ≡ returns q
      → any is_cancel before ≡ false
      → e.kind ≡ some kind
      → is_message kind ≡ true
      → get "text" e.payload ≡ some t
      → p (message "user" t) ≡ true
      → said p q.state ≡ true
  unfolding resume
  resume_keeps_messages p agent x c before after e kind t q h quiet given to_model text holds =
      let (ids, _, h₁) = >>=-inv (event_ids (before ++ e ∷ after)) _ h in
      let (b, a, same, calm) =
        others_split e kind before after (pending_all c.panel.table) given to_model quiet in
      let mail = before ++ e ∷ after in
      let ((replies, others, entries), ingested, h₂) =
        >>=-inv (Replies.ingest env.shown mail c.panel.table) _ h₁ in
      let (c', _, h₃) = >>=-inv (fold_all env replies (record c { panel = entries })) _ h₂ in
      let split = sym same ∙ ingest-others env.shown mail c.panel.table ingested in
      let h₄ : take_all env agent x c' ids (b ++ e ∷ a) ≡ returns q =
        subst (λ es. take_all env agent x c' ids es ≡ returns q) (sym split) h₃ in
      says-take_all p agent x c' ids b a e kind t q h₄ calm given to_model text holds

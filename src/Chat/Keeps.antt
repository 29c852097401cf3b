-- ===== src/Chat/Keeps.antt =====
-- Messages in the conversation or queued for it, along the ingestion of mail (`ChatAgent.resume` of
-- turn.py). `p` is any test on messages.
pub mod Calls
pub mod Activation
pub mod Mail
use entourage.Prelude.{
  ap, ◌>>=◌, String, Option, none, some, List, [], ◌∷◌, ◌++◌, Bool, true, false, ◌&&◌, is_empty,
  ◌||◌, not, ◌==◌, ◌≡◌, refl, sym, subst, ◌∙◌, inl, inr, arith, Bool-cases, Option-cases, any,
  any-append, Dict, Entry, lookup, change, Result, returns, raises, Result-cases, >>=-inv, is_some,
}
use entourage.Mail.{Json, Event, get, truthy}
use entourage.Mail.Json.{null, bool, num, str, arr, obj}
use entourage.Exchanges.{Reply}
use entourage.Panel as Table
use entourage.Panel.{Work, waiting, connect}
use entourage.Panel.Ingest.{entry_of, plain}
use entourage.Chat.Types.{Chat, Message, Outside, message}
use entourage.Executables.Context.{required}
use entourage.Sessions.Checkpoint.{text_eq}
use entourage.Chat.Inbox.{
  detach, detach_all, deliver, flush, sweep, settle, settle_failed, take_failure, take_one, goes_on,
  with_table, text_of_mail, payload_item, failed_of, take_failed, failed_text, is_message,
  take_message, take_request, take_system,
}

payload_item-get :
    (key : String) (payload t : Json)
    → payload_item key payload ≡ returns t
    → get key payload ≡ some t
payload_item-get key null t h = cc
payload_item-get key (bool b) t h = cc
payload_item-get key (num n) t h = cc
payload_item-get key (str s) t h = cc
payload_item-get key (arr js) t h = cc
payload_item-get key (obj fields) t h = elim (Option-cases (get key (obj fields))) [
  | inl missing ↦ absurd (ground (arith, h, missing))
  | inr (v, found) ↦ found ∙ ap some (ground (arith, h, found))
]

module _ (p : Message → Bool) where
  -- A message that passes the test is in the conversation, or queued for it.
  abbrev pub said : Chat → Bool
  said c = any p c.messages || any p c.buffered

  said-detach_all : (es : Dict Work) (c : Chat) → said (detach_all es c) ≡ said c
  unfolding detach_all
  said-detach_all [] c = refl
  said-detach_all (e ∷ es) c = elim (Bool-cases e.value.interruptible) [
    | inl promoted ↦ rw promoted (said-detach_all es (detach c e.key e.value))
    | inr stays ↦ rw stays (said-detach_all es c)
  ]

  pub said-deliver : (c : Chat) (m : Message) → said (deliver c m) ≡ (said c || p m)
  unfolding deliver
  said-deliver c m =
      let c' = detach_all (waiting c.panel.table) c in
      ground (arith, any-append p c'.buffered (m ∷ []), said-detach_all (waiting c.panel.table) c)

  pub said-flush : (c : Chat) → said c ≡ true → said (flush c) ≡ true
  unfolding flush
  said-flush c h = elim (Bool-cases (is_empty (waiting c.panel.table))) [
    | inl free ↦ rw free ground (
      arith,
      h,
      any-append p (c.messages ++ c.deferred) c.buffered,
      any-append p c.messages c.deferred,
    )
    | inr held ↦ rw held h
  ]

  pub said-sweep : (ids : List String) (c : Chat) → said (sweep ids c) ≡ said c
  unfolding sweep
  said-sweep [] c = refl
  said-sweep (id ∷ ids) c = elim (Option-cases (lookup id c.panel.table)) [
    | inl gone ↦ rw (gone, sweep) (said-sweep ids c)
    | inr (w, here) ↦ rw (here, sweep) (said-sweep ids (detach c id w))
  ]

  module _ (env : Outside) where
    pub said-settle :
        (c : Chat) (id : String) (w : Work) (content : Json)
        → said c ≡ true
        → said (settle env c id w content) ≡ true
    unfolding settle
    said-settle c id w content h = elim (Bool-cases (w.mode == "wait")) [
      | inl waits ↦
          elim (Bool-cases (is_some (lookup id c.panel.table) && not (w.status == "completed"))) [
            | inl ends ↦ rw (waits, ends) h
            | inr done ↦ rw (waits, done) h
          ]
      | inr connected ↦ rw connected (said-deliver c _ ∙ ground (arith, h))
    ]

    said-settle_failed :
        (es : Dict Work) (c : Chat) → said c ≡ true → said (settle_failed env es c) ≡ true
    unfolding settle_failed
    said-settle_failed [] c h = h
    said-settle_failed (e ∷ es) c h =
        said-settle_failed es (settle env c e.key e.value (failed_text e.value))
          (said-settle c e.key e.value (failed_text e.value) h)

    pub said-take_failure :
        (c : Chat) (work : Json) → said c ≡ true → said (take_failure env c work) ≡ true
    unfolding take_failure
    said-take_failure c (str work) h =
        let (failed, table) = Table.fail c.panel.table work in
        said-settle_failed failed (with_table c table) h
    said-take_failure c null h = h
    said-take_failure c (bool b) h = h
    said-take_failure c (num n) h = h
    said-take_failure c (arr js) h = h
    said-take_failure c (obj fs) h = h

    said-take_message :
        (c c' : Chat) (e : Event)
        → take_message c e ≡ returns (goes_on c')
        → (said c ≡ true → said c' ≡ true)
          × ((t : Json)
              → get "text" e.payload ≡ some t
              → p (message "user" t) ≡ true
              → said c' ≡ true)
    said-take_message c c' e h =
        let (t, read, h₁) = >>=-inv (text_of_mail e) _ h in
        let text = payload_item-get "text" e.payload t read in
        let same : deliver c (message "user" t) ≡ c' = ground (arith, h₁) in
        let by = subst (λ x. said x ≡ (said c || p (message "user" t))) same (said-deliver c _) in
        (
          λ before. ground (arith, by, before),
          λ t' text' holds.
              let t_is : t ≡ t' = ground (arith, text, text') in
              ground (arith, by, subst (λ x. p (message "user" x) ≡ true) (sym t_is) holds),
        )

    said-take_request :
        (c c' : Chat) (e : Event)
        → take_request c e ≡ returns (goes_on c')
        → said c ≡ true
        → said c' ≡ true
    said-take_request c c' e h before =
        let (request_id, _, h₁) = >>=-inv (required e.request_id) _ h in
        let (reply_to, _, h₂) = >>=-inv (required e.reply_to) _ h₁ in
        (said-take_message
            (record c {
              work =
                  some
                    (record { status = "working"; request_id = request_id; reply_to = reply_to });
            })
            c' e h₂).0
          before

    said-take_failed :
        (c c' : Chat) (failed : Option Json)
        → take_failed env c failed ≡ returns (goes_on c')
        → said c ≡ true
        → said c' ≡ true
    said-take_failed c c' none h before = cc
    said-take_failed c c' (some work) h before = elim (Bool-cases (truthy work)) [
      | inl real ↦
          let same : take_failure env c work ≡ c' = ground (arith, h, real) in
          subst (λ x. said x ≡ true) same (said-take_failure c work before)
      | inr empty ↦ absurd (ground (arith, h, empty))
    ]

    said-take_system :
        (c c' : Chat) (e : Event)
        → take_system env c e ≡ returns (goes_on c')
        → said c ≡ true
        → said c' ≡ true
    said-take_system c c' e h before = elim (Bool-cases (text_eq e.source "timer")) [
      | inl timer ↦
          let same : c ≡ c' = ground (arith, h, timer) in subst (λ x. said x ≡ true) same before
      | inr other ↦
          let h₁ : (failed_of e.payload >>= take_failed env c) ≡ returns (goes_on c') =
            ground (arith, h, other) in
          let (failed, _, h₂) = >>=-inv (failed_of e.payload) _ h₁ in
          said-take_failed c c' failed h₂ before
    ]

    -- A mail after which the chat goes on keeps what was said, and its text is said if it is a message.
    pub said-take_one :
        (c c' : Chat) (e : Event)
        → take_one env c e ≡ returns (goes_on c')
        → (said c ≡ true → said c' ≡ true)
          × ((kind : String) (t : Json)
              → e.kind ≡ some kind
              → is_message kind ≡ true
              → get "text" e.payload ≡ some t
              → p (message "user" t) ≡ true
              → said c' ≡ true)
    unfolding take_one
    said-take_one c c' e h = elim (Option-cases e.kind) [
      | inl none_given ↦ absurd (ground (arith, h, none_given))
      | inr (kind, given) ↦ elim (Bool-cases (is_message kind)) [
        | inl to_model ↦
            let (keeps, says) = said-take_message c c' e (ground (arith, h, given, to_model)) in
            (keeps, λ kind' t _ _ text holds. says t text holds)
        | inr no_message ↦ (
          λ before. elim (Bool-cases (kind == "request")) [
            | inl asks ↦
                said-take_request c c' e (ground (arith, h, given, no_message, asks)) before
            | inr other ↦
                said-take_system c c' e (ground (arith, h, given, no_message, other)) before
          ],
          λ kind' t given' to_model text holds.
              let same : kind ≡ kind' = ground (arith, given, given') in
              absurd
                (ground (arith, no_message, subst (λ k. is_message k ≡ true) (sym same) to_model)),
        )
      ]
    ]

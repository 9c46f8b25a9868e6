-- ===== src/Assistant/Tools/Backed.antt =====
-- backend/src/assistant/tools.rs: every tool keeps the context in order, and what it proposes is about
-- messages among the sources.
use rav.Common.{
  ℕ, ◌⊎◌, ◌≡◌, refl, sym, ap, subst, inl, inr, Bool, true, false, List, [], ◌∷◌, Bool-cases,
  if-both, Text, codes, text_eq, Result, ok, err, bind-ok, ok-injective, All, All-append, any, take,
  ◌>>=◌,
}
use rav.Assistant.{MessageLoc, ActionMessage, AssistantEvent, loc_eq}
use rav.Assistant.Actions.{ProposeActionArgs, validate_action}
use rav.Assistant.Actions.Safe.{validate_action-IsFiled}
use rav.Assistant.Tools.{
  ToolContext, resolve_ref, collect, action_message, add_message, Library, MailAccess, DraftArgs,
  SearchArgs, MessageSummary, MessageContent, Outcome, show_summary, show_content, search_mail,
  read_message, read_thread, propose_draft, propose_action, messages_of, propose, run_tool_inner,
  run_tool, parsed, answered,
}
use rav.Assistant.Tools.Cited.{
  IsCited, IsShown, IsBacked, message_loc, cite-IsCited, show_each-IsCited, resolve_ref-IsShown,
}

add_message-ok :
    (again : Bool) (m : ActionMessage) (without more : Result (List ActionMessage) Text)
    (ms : List ActionMessage)
    → add_message again m without more ≡ ok ms
    → (without ≡ ok ms) ⊎ ((rest : List ActionMessage) × (more ≡ ok rest) × (m ∷ rest ≡ ms))
add_message-ok true m without more ms h = inl h
add_message-ok false m without (ok rest) ms h = inr (rest, refl, ok-injective (m ∷ rest) ms h)
add_message-ok false m without (err e) ms h = cc

-- The messages that the loop over the references collects are among the sources.
collect-IsShown :
    (ctx : ToolContext) (seen : List MessageLoc) (rs : List Text) (ms : List ActionMessage)
    → IsCited ctx
    → collect ctx seen rs ≡ ok ms
    → All (λ m. IsShown ctx.sources (message_loc m)) ms
unfolding collect
collect-IsShown ctx seen [] ms w h =
    subst (All (λ m. IsShown ctx.sources (message_loc m))) (ok-injective [] ms h) tt
collect-IsShown ctx seen (r ∷ rs) ms w h =
    let next : MessageLoc → Result (List ActionMessage) Text = λ loc.
      add_message (any (loc_eq loc) seen) (action_message ctx r loc) (collect ctx seen rs)
        (collect ctx (loc ∷ seen) rs) in
    let (loc, e, h') = bind-ok (resolve_ref ctx r) next ms h in
    let (s, m, named, same) = resolve_ref-IsShown ctx r loc w e in
    elim (add_message-ok (any (loc_eq loc) seen) (action_message ctx r loc) _ _ ms h') [
      | inl again ↦ collect-IsShown ctx seen rs ms w again
      | inr (rest, more, is_ms) ↦
          subst (All (λ x. IsShown ctx.sources (message_loc x))) is_ms
            ((s, m, same), collect-IsShown ctx (loc ∷ seen) rs rest w more)
    ]

messages_of-IsShown :
    (ctx : ToolContext) (a : ProposeActionArgs) (ms : List ActionMessage)
    → IsCited ctx
    → messages_of ctx a ≡ ok ms
    → All (λ m. IsShown ctx.sources (message_loc m)) ms
unfolding messages_of
messages_of-IsShown ctx a ms w h = elim (Bool-cases (text_eq a.kind (codes "create_filter"))) [
  | inl e ↦
      subst (All (λ m. IsShown ctx.sources (message_loc m))) (ok-injective [] ms (rw e at h)) tt
  | inr e ↦ collect-IsShown ctx [] a.refs ms w (rw e at h)
]

pub propose-IsCited :
    (ctx : ToolContext) (event : AssistantEvent)
    → IsCited ctx
    → IsBacked ctx.sources event
    → IsCited (propose ctx event)
propose-IsCited ctx event w h = record {
  bijective = w.bijective;
  shown = w.shown;
  known = w.known;
  backed = All-append (IsBacked ctx.sources) ctx.proposals (event ∷ []) w.backed (h, tt);
}

-- An outcome whose context is in order.
abbrev IsOutcome : Outcome → Type 0
IsOutcome (ok (output, ctx)) = IsCited ctx
IsOutcome (err e) = Unit

-- What holds of every value holds after `?`.
bind-IsOutcome {ℓ} :
    {A : Type ℓ} (r : Result A Text) (rest : A → Outcome)
    → ((a : A) → r ≡ ok a → IsOutcome (rest a))
    → IsOutcome (r >>= rest)
bind-IsOutcome (ok a) rest h = h a refl
bind-IsOutcome (err e) rest h = tt

show_summary-IsCited :
    (m : MessageSummary) (ctx : ToolContext) → IsCited ctx → IsCited (show_summary m ctx).1
show_summary-IsCited m ctx w = cite-IsCited m.loc m.subject m.from m.date ctx w

show_content-IsCited :
    (with_to : Bool) (m : MessageContent) (ctx : ToolContext)
    → IsCited ctx
    → IsCited (show_content with_to m ctx).1
show_content-IsCited with_to m ctx w = cite-IsCited m.loc m.subject m.from m.date ctx w

module _ (lib : Library) (mail : MailAccess) (ctx : ToolContext) (w : IsCited ctx) where
  search_mail-IsOutcome : (args : SearchArgs) → IsOutcome (search_mail lib mail ctx args)
  unfolding search_mail
  search_mail-IsOutcome args =
      bind-IsOutcome (mail.search args) _
        (λ found e. show_each-IsCited show_summary show_summary-IsCited (take 10 found) ctx w)

  read_message-IsOutcome : (r : Text) → IsOutcome (read_message lib mail ctx r)
  unfolding read_message
  read_message-IsOutcome r = bind-IsOutcome (resolve_ref ctx r) _ (λ loc e.
      bind-IsOutcome (mail.read loc) _ (λ m k. cite-IsCited m.loc m.subject m.from m.date ctx w))

  read_thread-IsOutcome : (r : Text) → IsOutcome (read_thread lib mail ctx r)
  unfolding read_thread
  read_thread-IsOutcome r = bind-IsOutcome (resolve_ref ctx r) _ (λ loc e.
      bind-IsOutcome (mail.thread loc) _
        (λ ms k. show_each-IsCited (show_content false) (show_content-IsCited false) ms ctx w))

  propose_draft-IsOutcome : (a : DraftArgs) → IsOutcome (propose_draft lib mail ctx a)
  unfolding propose_draft
  propose_draft-IsOutcome a = bind-IsOutcome (resolve_ref ctx a.msg_ref) _ (λ loc e.
      elim (Bool-cases (text_eq (lib.strings.trim a.body) [])) [
        | inl empty ↦ rw empty tt
        | inr full ↦
            let (s, m, named, same) = resolve_ref-IsShown ctx a.msg_ref loc w e in
            rw full
              (propose-IsCited ctx _ w (s, m, named, ap (λ l. l.folder) same, ap (λ l. l.uid) same))
      ])

  propose_action-IsOutcome :
      (id : Text) (a : ProposeActionArgs) → IsOutcome (propose_action lib mail id ctx a)
  unfolding propose_action
  propose_action-IsOutcome id a = bind-IsOutcome (messages_of ctx a) _ (λ ms e.
      bind-IsOutcome mail.folders _ (λ folders k.
        bind-IsOutcome (validate_action lib.strings id a ms folders) _ (λ p h.
          let (named, same_id, same, sized, filed) =
            validate_action-IsFiled lib.strings id a ms folders p h in
          propose-IsCited ctx (AssistantEvent.action p) w (
            subst (All (λ m. IsShown ctx.sources (message_loc m))) (sym same)
              (messages_of-IsShown ctx a ms w e)))))

  run_tool_inner-IsOutcome :
      (id name arguments : Text) → IsOutcome (run_tool_inner lib mail id ctx name arguments)
  unfolding run_tool_inner
  run_tool_inner-IsOutcome id name arguments =
      if-both IsOutcome (text_eq name (codes "search_mail"))
        (bind-IsOutcome (parsed name (lib.parse_search arguments)) _
          (λ a e. search_mail-IsOutcome a))
        (if-both IsOutcome (text_eq name (codes "read_message"))
          (bind-IsOutcome (parsed name (lib.parse_ref arguments)) _
            (λ a e. read_message-IsOutcome a))
          (if-both IsOutcome (text_eq name (codes "read_thread"))
            (bind-IsOutcome (parsed name (lib.parse_ref arguments)) _
              (λ a e. read_thread-IsOutcome a))
            (if-both IsOutcome (text_eq name (codes "propose_draft"))
              (bind-IsOutcome (parsed name (lib.parse_draft arguments)) _
                (λ a e. propose_draft-IsOutcome a))
              (if-both IsOutcome (text_eq name (codes "propose_action"))
                (bind-IsOutcome (parsed name (lib.parse_action arguments)) _
                  (λ a e. propose_action-IsOutcome id a))
                tt))))

  answered-IsCited : (o : Outcome) → IsOutcome o → IsCited (answered lib mail ctx o).1
  answered-IsCited (ok (output, after)) h = h
  answered-IsCited (err e) h = w

  counted-IsCited : (c : ToolContext) (n : ℕ) → IsCited c → IsCited (record c { tools_run = n })
  counted-IsCited c n h = record {
    bijective = h.bijective;
    shown = h.shown;
    known = h.known;
    backed = h.backed;
  }

  -- Whatever tool is run, with whatever arguments, the context stays in order.
  pub run_tool-IsCited :
      (id name arguments : Text) → IsCited (run_tool lib mail id ctx name arguments).1
  unfolding run_tool
  run_tool-IsCited id name arguments =
      counted-IsCited (answered lib mail ctx (run_tool_inner lib mail id ctx name arguments)).1 _ (
        answered-IsCited (run_tool_inner lib mail id ctx name arguments)
          (run_tool_inner-IsOutcome id name arguments))

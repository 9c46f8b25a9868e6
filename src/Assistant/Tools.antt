-- ===== src/Assistant/Tools.antt =====
-- backend/src/assistant/tools.rs: the five tools and the context of a turn. Parsing and printing JSON are
-- serde_json's and parameters, as is the mailbox at the time of the call. A tool changes the context
-- only after its last `?`, so an error leaves it as it was.
mod Access
pub mod Cited
pub mod Backed
pub use Access.*
use rav.Common.{
  ◌+◌, ℕ, Bool, true, false, not, Option, none, some, List, [], ◌∷◌, ◌++◌, if◌then◌else◌, length,
  take, any, ◌==◌, Text, codes, text_eq, Result, ok, err, ◌>>=◌, unwrap_or, ok_or,
}
use rav.Assistant.{
  MessageLoc, loc_eq, SourceRef, DraftProposal, ActionMessage, ActionProposal, AssistantEvent,
}
use rav.Assistant.Refs.{RefTable, empty_table, mint, resolve}
use rav.Assistant.Fence.{fenced}
use rav.Assistant.Actions.{Strings, ProposeActionArgs, validate_action}

-- `tools_run` is not in the source: it counts the runs of a tool.
pub record ToolContext : Type 0 where
  pub refs : RefTable
  pub sources : List SourceRef
  pub proposals : List AssistantEvent
  pub tools_run : ℕ

abbrev pub new_context : ToolContext
new_context = record { refs = empty_table; sources = []; proposals = []; tools_run = 0 }

abbrev source_of : Text → MessageLoc → Text → Text → Text → SourceRef
source_of r loc subject from date = record {
  msg_ref = r;
  folder = loc.folder;
  uid = loc.uid;
  subject = subject;
  from = from;
  date = date;
}

-- The sources with a new one, unless its reference is there.
unfoldable pub with_source : SourceRef → List SourceRef → List SourceRef
with_source new sources =
    if any (λ s. text_eq s.msg_ref new.msg_ref) sources then sources else sources ++ new ∷ []

unfoldable pub cite : MessageLoc → Text → Text → Text → ToolContext → Text × ToolContext
cite loc subject from date ctx =
    let (r, refs) = mint loc ctx.refs in
    (
      r,
      record ctx {
        refs = refs;
        sources = with_source (source_of r loc subject from date) ctx.sources;
      },
    )

unfoldable pub resolve_ref : ToolContext → Text → Result MessageLoc Text
resolve_ref ctx r =
    ok_or (resolve ctx.refs r) (codes "unknown ref " ++ (r ++ codes "; use a ref you were shown"))

abbrev pub show_summary : MessageSummary → ToolContext → ShownMail × ToolContext
show_summary m ctx =
    let (r, ctx') = cite m.loc m.subject m.from m.date ctx in
    (
      record {
        msg_ref = r;
        subject = m.subject;
        from = m.from;
        to = none;
        date = m.date;
        shown = fenced m.snippet;
      },
      ctx',
    )

abbrev pub show_content : Bool → MessageContent → ToolContext → ShownMail × ToolContext
show_content with_to m ctx =
    let (r, ctx') = cite m.loc m.subject m.from m.date ctx in
    (
      record {
        msg_ref = r;
        subject = m.subject;
        from = m.from;
        to = if with_to then some m.to else none;
        date = m.date;
        shown = fenced m.body;
      },
      ctx',
    )

-- `map` over messages with a function that changes the context.
unfoldable pub show_each :
    {A : Type 0}
    → (A → ToolContext → ShownMail × ToolContext)
    → List A
    → ToolContext
    → List ShownMail × ToolContext
show_each show [] ctx = ([], ctx)
show_each show (m ∷ ms) ctx =
    let (one, ctx') = show m ctx in
    let (others, last) = show_each show ms ctx' in (one ∷ others, last)

abbrev subject_of : Text → List SourceRef → Text
subject_of r [] = []
subject_of r (s ∷ sources) = if text_eq s.msg_ref r then s.subject else subject_of r sources

abbrev pub action_message : ToolContext → Text → MessageLoc → ActionMessage
action_message ctx r loc = record {
  folder = loc.folder;
  uid = loc.uid;
  subject = subject_of r ctx.sources;
}

abbrev pub push_message :
    ActionMessage → Result (List ActionMessage) Text → Result (List ActionMessage) Text
push_message m (ok ms) = ok (m ∷ ms)
push_message m (err e) = err e

-- A message that was seen is left out.
abbrev pub add_message :
    Bool
    → ActionMessage
    → Result (List ActionMessage) Text
    → Result (List ActionMessage) Text
    → Result (List ActionMessage) Text
add_message true m again more = again
add_message false m again more = push_message m more

-- The loop over the references of an action; `seen` holds the messages so far.
unfoldable pub collect :
    ToolContext → List MessageLoc → List Text → Result (List ActionMessage) Text
collect ctx seen [] = ok []
collect ctx seen (r ∷ rs) = resolve_ref ctx r >>= λ loc.
    add_message (any (loc_eq loc) seen) (action_message ctx r loc) (collect ctx seen rs)
      (collect ctx (loc ∷ seen) rs)

-- The messages of an action: a filter is about mail to come.
unfoldable pub messages_of : ToolContext → ProposeActionArgs → Result (List ActionMessage) Text
messages_of ctx a = if text_eq a.kind (codes "create_filter") then ok [] else collect ctx [] a.refs

abbrev pub propose : ToolContext → AssistantEvent → ToolContext
propose ctx event = record ctx { proposals = ctx.proposals ++ event ∷ [] }

abbrev pub Outcome : Type 0
Outcome = Result (ToolOutput × ToolContext) Text

abbrev pub parsed {ℓ} : {A : Type ℓ} → Text → Result A Text → Result A Text
parsed name (ok a) = ok a
parsed name (err e) = err (codes "bad arguments for " ++ (name ++ (codes ": " ++ e)))

module _ (lib : Library) (mail : MailAccess) where
  unfoldable pub search_mail : ToolContext → SearchArgs → Outcome
  search_mail ctx args = mail.search args >>= λ found.
      let (items, ctx') = show_each show_summary (take 10 found) ctx in
      ok (ToolOutput.results items, ctx')

  unfoldable pub read_message : ToolContext → Text → Outcome
  read_message ctx r = resolve_ref ctx r >>= λ loc. mail.read loc >>= λ m.
      let (item, ctx') = show_content true m ctx in ok (ToolOutput.message item, ctx')

  unfoldable pub read_thread : ToolContext → Text → Outcome
  read_thread ctx r = resolve_ref ctx r >>= λ loc. mail.thread loc >>= λ ms.
      let (items, ctx') = show_each (show_content false) ms ctx in
      ok (ToolOutput.messages items, ctx')

  unfoldable pub propose_draft : ToolContext → DraftArgs → Outcome
  propose_draft ctx a = resolve_ref ctx a.msg_ref >>= λ loc.
      if text_eq (lib.strings.trim a.body) []
      then err (codes "the draft body is empty")
      else ok (
        ToolOutput.drafted,
        propose ctx (
            AssistantEvent.draft
              (record { msg_ref = a.msg_ref; folder = loc.folder; uid = loc.uid; body = a.body })),
      )

  unfoldable pub propose_action : Text → ToolContext → ProposeActionArgs → Outcome
  propose_action id ctx a = messages_of ctx a >>= λ messages. mail.folders >>= λ folders.
      validate_action lib.strings id a messages folders >>= λ p.
      ok (ToolOutput.proposed p.summary, propose ctx (AssistantEvent.action p))

  unfoldable pub run_tool_inner : Text → ToolContext → Text → Text → Outcome
  run_tool_inner id ctx name arguments =
      if text_eq name (codes "search_mail")
      then parsed name (lib.parse_search arguments) >>= search_mail ctx
      else if text_eq name (codes "read_message")
      then parsed name (lib.parse_ref arguments) >>= read_message ctx
      else if text_eq name (codes "read_thread")
      then parsed name (lib.parse_ref arguments) >>= read_thread ctx
      else if text_eq name (codes "propose_draft")
      then parsed name (lib.parse_draft arguments) >>= propose_draft ctx
      else if text_eq name (codes "propose_action")
      then parsed name (lib.parse_action arguments) >>= propose_action id ctx
      else err (codes "no tool named " ++ name)

  abbrev pub answered : ToolContext → Outcome → Text × ToolContext
  answered ctx (ok (output, ctx')) = (lib.to_json output, ctx')
  answered ctx (err e) = (lib.error_json e, ctx)

  -- The answer to the model, and the context after it.
  unfoldable pub run_tool : Text → ToolContext → Text → Text → Text × ToolContext
  run_tool id ctx name arguments =
      let (result, after) = answered ctx (run_tool_inner id ctx name arguments) in
      (result, record after { tools_run = ctx.tools_run + 1 })

abbrev pub status_label : Text → Text
status_label name =
    if text_eq name (codes "search_mail")
    then codes "Searching mail…"
    else if text_eq name (codes "read_message")
    then codes "Reading email…"
    else if text_eq name (codes "read_thread")
    then codes "Reading the thread…"
    else if text_eq name (codes "propose_draft")
    then codes "Drafting a reply…"
    else if text_eq name (codes "propose_action")
    then codes "Preparing an action…"
    else codes "Working…"

-- ===== src/Assistant.antt =====
-- backend/src/assistant: the assistant that answers from the user's mail by a model and five tools. The
-- types of refs.rs, events.rs, model.rs and tools.rs. Its strings are texts, since most of them become
-- part of a message to the model or are read from one.
pub mod Refs
pub mod Fence
pub mod Actions
pub mod Tools
pub mod Session
pub mod Stream
mod Tests
use rav.Common.{
  ℕ, ◌≡◌, ◌↔◌, ap, Bool, true, ◌&&◌, Option, none, some, List, arith, ◌==◌, ==_iff, Text, codes,
  text_eq, text_eq_iff,
}
use rav.Common.Maps.{Eq}

pub record MessageLoc : Type 0 where
  pub folder : Text
  pub uid : ℕ

abbrev pub loc_eq : MessageLoc → MessageLoc → Bool
loc_eq a b = text_eq a.folder b.folder && (a.uid == b.uid)

pub loc_eq_iff : (a b : MessageLoc) → (loc_eq a b ≡ true) ↔ (a ≡ b)
loc_eq_iff a b = ground (arith, text_eq_iff a.folder b.folder)

instance abbrev pub text_Eq : Eq Text
text_Eq = record { eq = text_eq; eq_law = text_eq_iff }

instance abbrev pub loc_Eq : Eq MessageLoc
loc_Eq = record { eq = loc_eq; eq_law = loc_eq_iff }

-- events.rs

pub record SourceRef : Type 0 where
  pub msg_ref : Text
  pub folder : Text
  pub uid : ℕ
  pub subject : Text
  pub from : Text
  pub date : Text

pub record DraftProposal : Type 0 where
  pub msg_ref : Text
  pub folder : Text
  pub uid : ℕ
  pub body : Text

pub record ActionMessage : Type 0 where
  pub folder : Text
  pub uid : ℕ
  pub subject : Text

pub record FilterSpec : Type 0 where
  pub from : Text
  pub folder : Text

pub data ActionKind : Type 0 where
  move : ActionKind
  archive : ActionKind
  mark_read : ActionKind
  create_filter : ActionKind

pub record ActionProposal : Type 0 where
  pub id : Text
  pub kind : ActionKind
  pub summary : Text
  pub messages : List ActionMessage
  pub folder : Option Text
  pub filter : Option FilterSpec

pub data AssistantEvent : Type 0 where
  status : Text → AssistantEvent
  text : Text → AssistantEvent
  sources : List SourceRef → AssistantEvent
  draft : DraftProposal → AssistantEvent
  action : ActionProposal → AssistantEvent
  error : Text → Bool → AssistantEvent
  done : ℕ → ℕ → AssistantEvent

-- model.rs

pub record FunctionCall : Type 0 where
  pub name : Text
  pub arguments : Text

pub record ToolCall : Type 0 where
  pub id : Text
  pub kind : Text
  pub function : FunctionCall

pub record ChatMessage : Type 0 where
  pub role : Text
  pub content : Option Text
  pub tool_calls : Option (List ToolCall)
  pub tool_call_id : Option Text

abbrev plain : Text → Text → ChatMessage
plain role c = record { role = role; content = some c; tool_calls = none; tool_call_id = none }

abbrev pub system_message : Text → ChatMessage
system_message c = plain (codes "system") c

abbrev pub user_message : Text → ChatMessage
user_message c = plain (codes "user") c

abbrev pub assistant_message : Text → ChatMessage
assistant_message c = plain (codes "assistant") c

abbrev pub assistant_tools : Text → List ToolCall → ChatMessage
assistant_tools content calls = record {
  role = codes "assistant";
  content = some content;
  tool_calls = some calls;
  tool_call_id = none;
}

abbrev pub tool_message : Text → Text → ChatMessage
tool_message id content = record {
  role = codes "tool";
  content = some content;
  tool_calls = none;
  tool_call_id = some id;
}

pub record ModelReply : Type 0 where
  pub content : Text
  pub tool_calls : List ToolCall
  pub input_tokens : ℕ
  pub output_tokens : ℕ

pub data ModelError : Type 0 where
  retryable : Text → ModelError
  fatal : Text → ModelError

-- ===== src/Assistant/Tools/Access.antt =====
-- backend/src/assistant/tools.rs: what the tools are given and give, and the mailbox and JSON as
-- parameters.
use rav.Common.{Option, List, Text, Result}
use rav.Assistant.{MessageLoc}
use rav.Assistant.Actions.{Strings, ProposeActionArgs}

pub record MessageSummary : Type 0 where
  pub loc : MessageLoc
  pub subject : Text
  pub from : Text
  pub date : Text
  pub snippet : Text

pub record MessageContent : Type 0 where
  pub loc : MessageLoc
  pub subject : Text
  pub from : Text
  pub to : Text
  pub date : Text
  pub body : Text

pub record SearchArgs : Type 0 where
  pub query : Text
  pub from : Option Text
  pub after : Option Text
  pub before : Option Text
  pub folder : Option Text

pub record DraftArgs : Type 0 where
  pub msg_ref : Text
  pub body : Text

-- The mailbox as it answers at one time.
pub record MailAccess : Type 0 where
  pub search : SearchArgs → Result (List MessageSummary) Text
  pub read : MessageLoc → Result MessageContent Text
  pub thread : MessageLoc → Result (List MessageContent) Text
  pub folders : Result (List Text) Text

-- A message as a tool shows it; `shown` is the fenced body or snippet.
pub record ShownMail : Type 0 where
  pub msg_ref : Text
  pub subject : Text
  pub from : Text
  pub to : Option Text
  pub date : Text
  pub shown : Text

-- The JSON values that the tools return.
pub data ToolOutput : Type 0 where
  results : List ShownMail → ToolOutput
  message : ShownMail → ToolOutput
  messages : List ShownMail → ToolOutput
  drafted : ToolOutput
  proposed : Text → ToolOutput

pub record Library : Type 0 where
  pub strings : Strings
  pub parse_search : Text → Result SearchArgs Text
  pub parse_ref : Text → Result Text Text
  pub parse_draft : Text → Result DraftArgs Text
  pub parse_action : Text → Result ProposeActionArgs Text
  pub to_json : ToolOutput → Text
  pub error_json : Text → Text

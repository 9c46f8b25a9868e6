-- ===== src/Filters.antt =====
-- backend/src/db/filters.rs: filter rules, their table, and which of them a message meets. A priority
-- is shifted by 2^63, which keeps the order of `i64`; times are seconds; the JSON columns are the
-- lists they stand for. Lower-casing (Unicode tables) and the `regex` crate are parameters.
pub mod Evaluate
pub mod Store
pub mod Validate
pub mod Matching
pub mod Storage
pub mod Changes
mod Tests
use rav.Common.{ℕ, ◌^◌, String, Bool, Option, List, Text}

pub record FilterCondition : Type 0 where
  pub field : String
  pub op : String
  pub value : Text

pub record FilterAction : Type 0 where
  pub action_type : String
  pub action_value : Option Text

pub record FilterRule : Type 0 where
  pub id : String
  pub name : Text
  pub enabled : Bool
  pub priority : ℕ
  pub conditions : List FilterCondition
  pub match_mode : String
  pub actions : List FilterAction
  pub stop_processing : Bool
  pub created_at : ℕ
  pub updated_at : ℕ

pub record CreateFilterRule : Type 0 where
  pub name : Text
  pub enabled : Bool
  pub priority : ℕ
  pub conditions : List FilterCondition
  pub match_mode : String
  pub actions : List FilterAction
  pub stop_processing : Bool

pub record UpdateFilterRule : Type 0 where
  pub name : Option Text
  pub enabled : Option Bool
  pub priority : Option ℕ
  pub conditions : Option (List FilterCondition)
  pub match_mode : Option String
  pub actions : Option (List FilterAction)
  pub stop_processing : Option Bool

pub record MessageContext : Type 0 where
  pub from_address : Text
  pub to_addresses : Text
  pub cc_addresses : Text
  pub subject : Text
  pub body_snippet : Text
  pub size : ℕ
  pub has_attachments : Bool
  pub is_reply : Bool

-- ===== src/Model/Conflict.antt =====
-- internal/model/conflict.go: conflicts of addresses and of subnets.
use rackd.Prelude.{Option, List}
use rackd.Text.{Text}
use rackd.Model.{Time}

-- model.Conflict, which is also the row: a list is stored as JSON, and an empty text or time as NULL.
-- The type and the status are strings; the constants are in Storage/Conflict.
pub record Conflict : Type 0 where
  pub id : Text
  pub type : Text
  pub status : Text
  pub description : Text
  pub ip_address : Text
  pub device_ids : List Text
  pub device_names : List Text
  pub network_ids : List Text
  pub network_names : List Text
  pub subnets : List Text
  pub detected_at : Time
  pub resolved_at : Option Time
  pub resolved_by : Text
  pub notes : Text

-- ===== src/MissionGraph/Registry.antt =====
-- The closed-world registry of apps/backend/src/missions/missionActionRegistry.ts.
use chanter_operator.Prelude.{
  ℕ, String, Bool, true, ◌&&◌, not, Option, none, some, List, [], ◌∷◌, ◌==◌, if◌then◌else◌, find,
  truthy,
}
use chanter_operator.Json.{Json, text, Fields}
use chanter_operator.MissionGraph.Contracts.{
  Contracts, RuntimeRequest, ScheduleVerdict, scheduled, refused,
}

pub data Lane : Type 0 where
  generic autoposter_legacy : Lane

-- MissionGraphActionValidationContext
pub record Context : Type 0 where
  pub requested_at : String
  pub workspace_id : Option String
  pub account_id : Option String

-- MissionGraphActionValidationResult, with the status that is left out as none.
pub data InputVerdict : Type 0 where
  accepted : Fields → InputVerdict
  rejected : String → String → Option ℕ → InputVerdict

pub record RegisteredAction : Type 0 where
  pub product : String
  pub action : String
  pub lane : Lane
  pub downstream_operation_type : String
  pub graph_eligible : Bool
  pub validate_graph_input : RuntimeRequest → Context → InputVerdict

abbrev same_account : Option String → String → Bool
same_account none id = not true
same_account (some own) id = own == id

abbrev check_schedule : RuntimeRequest → Context → ScheduleVerdict → InputVerdict
check_schedule request context (refused code message status) = rejected code message (some status)
check_schedule request context (scheduled schedule) =
    if truthy context.account_id && not (same_account context.account_id schedule.account_id)
    then rejected "OPERATOR_MISSION_SCOPE_MISMATCH"
        "The AutoPoster node account does not match the graph tenant account binding." (some 409)
    else (if not (same_account request.tenant_account_id schedule.account_id)
        then rejected "OPERATOR_MISSION_SCOPE_MISMATCH"
            "The AutoPoster node account does not match its deterministic child tenant scope."
            (some 409)
        else accepted schedule.payload)

module _ (c : Contracts) where
  abbrev validate_schedule_input : RuntimeRequest → Context → InputVerdict
  validate_schedule_input request context =
      if truthy context.workspace_id
      then check_schedule request context (c.validate_schedule request.input context.requested_at)
      else rejected "OPERATOR_MISSION_SCOPE_INVALID"
          "AutoPoster graph nodes require one exact graph tenant workspaceId." none

  abbrev validate_loop_input : RuntimeRequest → Context → InputVerdict
  validate_loop_input request context = elim (c.validate_manual_loop_input request) [
    | [] ↦ accepted request.input
    | first ∷ rest ↦ rejected first.code first.message none
  ]

  -- REGISTERED_MISSION_ACTIONS
  abbrev pub registered_mission_actions : List RegisteredAction
  registered_mission_actions =
      record {
        product = "auto_poster";
        action = "autoposter.post.schedule";
        lane = Lane.autoposter_legacy;
        downstream_operation_type = "autoposter.queue.create_unapproved_draft";
        graph_eligible = true;
        validate_graph_input = validate_schedule_input;
      }
      ∷ record {
        product = "loop_governor";
        action = c.manual_loop_create;
        lane = Lane.generic;
        downstream_operation_type = "loop_governor.task.create_manual_loop";
        graph_eligible = true;
        validate_graph_input = validate_loop_input;
      }
      ∷ []

  unfoldable pub resolve_registered_mission_action :
      Option Json → Option Json → Option RegisteredAction
  resolve_registered_mission_action (some (text product)) (some (text action)) =
      find (λ entry. entry.product == product && entry.action == action) registered_mission_actions
  resolve_registered_mission_action _ _ = none

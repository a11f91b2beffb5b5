-- ===== src/Gateway/Guards.antt =====
-- The routes that are modelled, each by its handler.
use bighead.Common.{String, Bool, true, false, Option}
use bighead.Json.{Json}
use bighead.Json.Numbers.{Number}
use bighead.Gateway.{Platform, Request, Outcome}
pub mod Upstream
use bighead.Gateway.TaskRoutes.{get_tasks, post_task, get_task}
use bighead.Gateway.Approvals.{get_approvals, get_approval, get_decisions, post_decision}
use bighead.Gateway.Agents.{get_agents, post_agent, get_agent, patch_agent, delete_agent}
use bighead.Gateway.Rooms.{get_rooms, post_room, get_files, get_members, get_messages, post_message}
use bighead.Gateway.Commercial.{get_leads, get_lead, get_pipeline, post_follow_up, post_stage}
use bighead.Gateway.Search.{post_search, get_records}
use bighead.Gateway.ScreenRules.{post_screen_rule}
use bighead.Gateway.Mutation.{post_transition}

-- A route of the application, with the parameter of its path.
pub data Route : Type 0 where
  list_tasks create_task list_approvals list_agents create_agent list_rooms create_room : Route
  show_task move_task show_approval show_decisions decide : String → Route
  show_agent change_agent archive_agent : String → Route
  list_leads show_pipeline search show_records command_screen : Route
  show_lead follow_up set_stage : String → Route
  show_files show_members show_messages send_message : String → Route

-- The routes that test the origin of a request.
abbrev pub checks_origin : Route → Bool
checks_origin create_task = true
checks_origin create_agent = true
checks_origin (move_task id) = true
checks_origin (decide id) = true
checks_origin (change_agent id) = true
checks_origin (archive_agent id) = true
checks_origin (follow_up id) = true
checks_origin (set_stage id) = true
checks_origin _ = false

module _ (p : Platform) (number_of : Option String → Number) (digits : Number → String)
    (show : Option Json → String) (type_error : String) where
  unfoldable pub serve : Route → Request → Outcome
  unfolding get_tasks post_task get_task get_approvals get_approval get_decisions post_decision
      get_agents post_agent get_agent patch_agent delete_agent get_rooms post_room get_files
      get_members get_messages post_message post_transition get_leads get_lead get_pipeline
      post_follow_up post_stage post_search get_records post_screen_rule
  serve list_tasks request = get_tasks p request
  serve create_task request = post_task p request
  serve list_approvals request = get_approvals p request
  serve list_agents request = get_agents p number_of digits request
  serve create_agent request = post_agent p number_of digits request
  serve list_rooms request = get_rooms p digits type_error request
  serve create_room request = post_room p digits type_error request
  serve (show_task id) request = get_task p request id
  serve (move_task id) request = post_transition p.encode show p.url_origin p.app_url request id
  serve (show_approval id) request = get_approval p request id
  serve (show_decisions id) request = get_decisions p request id
  serve (decide id) request = post_decision p request id
  serve (show_agent id) request = get_agent p number_of digits request id
  serve (change_agent id) request = patch_agent p number_of digits request id
  serve (archive_agent id) request = delete_agent p number_of digits request id
  serve (show_files id) request = get_files p digits type_error request id
  serve (show_members id) request = get_members p digits type_error request id
  serve (show_messages id) request = get_messages p digits type_error request id
  serve (send_message id) request = post_message p digits type_error request id
  serve list_leads request = get_leads p request
  serve show_pipeline request = get_pipeline p request
  serve search request = post_search p request
  serve show_records request = get_records p request
  serve command_screen request = post_screen_rule p request
  serve (show_lead id) request = get_lead p request id
  serve (follow_up id) request = post_follow_up p request id
  serve (set_stage id) request = post_stage p request id

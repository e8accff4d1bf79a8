-- ===== src/Store/Rows.antt =====
-- server/src/store/types.ts: the rows of threads, runs and steps, and the errors of a store.
-- A JSON value that the store keeps as it is, is a `Value`.
use run_forge.Base.{ℕ, String, Bool, true, false, Option, List, Value}
use run_forge.Agent.Compaction.{LlmRole, LlmToolCall, Collapsed}

pub data RunStatus : Type 0 where
  pending running waiting_for_user done error canceling canceled : RunStatus

unfoldable pub is_terminal_run_status : RunStatus → Bool
is_terminal_run_status done = true
is_terminal_run_status error = true
is_terminal_run_status canceled = true
is_terminal_run_status pending = false
is_terminal_run_status running = false
is_terminal_run_status waiting_for_user = false
is_terminal_run_status canceling = false

pub record Scope : Type 0 where
  pub tenant_id : String
  pub user_id : String

pub data SourceType : Type 0 where
  web external : SourceType

pub record ThreadRow : Type 0 where
  pub id : String
  pub tenant_id : String
  pub user_id : Option String
  pub space_id : String
  pub source_type : SourceType
  pub source_caller_id : Option String
  pub source_ref : Value
  pub title : Option String
  pub fallback_title : Option String
  pub active_run_id : Option String
  pub executing_run_id : Option String
  pub pinned_at : Option String
  pub archived_at : Option String
  pub created_at : String
  pub updated_at : String

pub record RunRuntimeState : Type 0 where
  pub skill_ids : List String
  pub mcp_server_ids : List String
  pub activated_tool_names : List String
  pub rejected_image_models : List String
  pub last_applied_external_input_version : ℕ

pub record RunMetadata : Type 0 where
  pub runtime : RunRuntimeState
  pub goal : Value
  pub pending_interaction : Value
  pub context : Option (List (ℕ × Collapsed))

pub record RunRow : Type 0 where
  pub metadata : RunMetadata
  pub id : String
  pub thread_id : String
  pub parent_run_id : Option String
  pub status : RunStatus
  pub input : String
  pub model_ref : Option String
  pub output : Option String
  pub error : Option String
  pub goal_state : Value
  pub runtime_capabilities_snapshot : Value
  pub space_config_snapshot : Value
  pub space_config_version : Option ℕ
  pub plugin_lock : Value
  pub external_input_open : Bool
  pub input_version : ℕ
  pub runtime_state : RunRuntimeState
  pub pending_interaction : Value
  pub created_at : String
  pub updated_at : String

pub record CreateRunOptions : Type 0 where
  pub model_ref : Option String
  -- `none` if it is not given, and `some none` for null.
  pub parent_run_id : Option (Option String)
  pub runtime_capabilities_snapshot : Value
  pub space_config_snapshot : Option Value
  pub plugin_lock : Option Value
  pub expected_space_config_version : Option ℕ

pub record StepAggregate : Type 0 where
  pub tool_calls : List LlmToolCall
  pub output : Option String
  pub ended_at : String
  -- The fields that no operation of the store reads.
  pub rest : Value

pub record StepToolResult : Type 0 where
  pub tool_call_id : String
  pub content : String
  pub created_at : String
  pub media_refs : Value
  pub started_at : Option String
  pub duration_ms : Option ℕ

pub record StepRow : Type 0 where
  pub id : String
  pub run_id : String
  pub idx : ℕ
  pub context_snapshot : Option Value
  pub result : Option StepAggregate
  pub tool_results : List StepToolResult
  pub completed_at : Option String
  pub created_at : String

pub record StoredMessage : Type 0 where
  pub thread_id : String
  pub run_id : String
  pub step_id : Option String
  pub role : LlmRole
  pub content : Option String
  pub tool_calls : List LlmToolCall
  pub tool_call_id : Option String
  pub provider_state : Value
  pub media_refs : Value
  pub collapsed : Option Collapsed
  pub summary_of : List ℕ
  pub seq : ℕ
  pub created_at : String

pub record ThreadNoticeRow : Type 0 where
  pub id : ℕ
  pub thread_id : String
  pub kind : String
  pub message : String
  pub title : Option String
  pub linked_thread_id : Option String
  pub linked_run_id : Option String
  pub created_at : String

pub data SubagentRunStatus : Type 0 where
  running done error : SubagentRunStatus

pub record SubagentRunRow : Type 0 where
  pub id : String
  pub tenant_id : String
  pub parent_run_id : String
  pub parent_step_id : Option String
  pub runtime_profile_id : Option String
  pub status : SubagentRunStatus
  pub task_assignment : Value
  pub skill_names : List String
  pub output : Option String
  pub error : Option String
  pub usage : Value
  pub created_at : String
  pub updated_at : String
  pub finished_at : Option String

-- What an operation throws: an error by its message, or one of the store's own kinds of error.
pub data StoreError : Type 0 where
  failed : String → StoreError
  run_active : String → RunStatus → StoreError
  space_config_changed : StoreError
  delete_conflict : String → StoreError

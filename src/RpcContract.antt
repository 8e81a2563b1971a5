-- ===== src/RpcContract.antt =====
-- The method names of the app-server protocol: crates/codex-runtime/src/runtime/rpc_contract.rs,
-- module `methods`.
pub mod Descriptors
pub mod Validate
pub mod Accepted
use coclai.Prelude.{String, List, [], ◌∷◌}

abbrev pub turn_start : String
turn_start = "turn/start"

abbrev pub thread_started : String
thread_started = "thread/started"

abbrev pub turn_started : String
turn_started = "turn/started"

abbrev pub turn_completed : String
turn_completed = "turn/completed"

abbrev pub turn_failed : String
turn_failed = "turn/failed"

abbrev pub turn_cancelled : String
turn_cancelled = "turn/cancelled"

abbrev pub turn_interrupted : String
turn_interrupted = "turn/interrupted"

abbrev pub turn_diff_updated : String
turn_diff_updated = "turn/diff/updated"

abbrev pub turn_plan_updated : String
turn_plan_updated = "turn/plan/updated"

abbrev pub item_started : String
item_started = "item/started"

abbrev pub item_agent_message_delta : String
item_agent_message_delta = "item/agentMessage/delta"

abbrev pub item_command_execution_output_delta : String
item_command_execution_output_delta = "item/commandExecution/outputDelta"

abbrev pub item_completed : String
item_completed = "item/completed"

abbrev pub approval_ack : String
approval_ack = "approval/ack"

abbrev pub skills_changed : String
skills_changed = "skills/changed"

abbrev pub thread_start : String
thread_start = "thread/start"

abbrev pub thread_resume : String
thread_resume = "thread/resume"

abbrev pub thread_fork : String
thread_fork = "thread/fork"

abbrev pub thread_archive : String
thread_archive = "thread/archive"

abbrev pub thread_read : String
thread_read = "thread/read"

abbrev pub thread_list : String
thread_list = "thread/list"

abbrev pub thread_loaded_list : String
thread_loaded_list = "thread/loaded/list"

abbrev pub thread_rollback : String
thread_rollback = "thread/rollback"

abbrev pub skills_list : String
skills_list = "skills/list"

abbrev pub command_exec : String
command_exec = "command/exec"

abbrev pub command_exec_write : String
command_exec_write = "command/exec/write"

abbrev pub command_exec_terminate : String
command_exec_terminate = "command/exec/terminate"

abbrev pub command_exec_resize : String
command_exec_resize = "command/exec/resize"

abbrev pub turn_interrupt : String
turn_interrupt = "turn/interrupt"

abbrev pub item_command_execution_request_approval : String
item_command_execution_request_approval = "item/commandExecution/requestApproval"

abbrev pub item_file_change_request_approval : String
item_file_change_request_approval = "item/fileChange/requestApproval"

abbrev pub item_tool_request_user_input : String
item_tool_request_user_input = "item/tool/requestUserInput"

abbrev pub item_tool_call : String
item_tool_call = "item/tool/call"

abbrev pub account_chatgpt_auth_tokens_refresh : String
account_chatgpt_auth_tokens_refresh = "account/chatgptAuthTokens/refresh"

abbrev pub command_exec_output_delta : String
command_exec_output_delta = "command/exec/outputDelta"

abbrev pub known : List String
known =
    thread_start ∷ thread_resume ∷ thread_fork ∷ thread_archive ∷ thread_read ∷ thread_list
    ∷ thread_loaded_list ∷ thread_rollback ∷ skills_list ∷ command_exec ∷ command_exec_write
    ∷ command_exec_terminate ∷ command_exec_resize ∷ turn_start ∷ turn_interrupt ∷ []

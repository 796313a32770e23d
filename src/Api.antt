-- ===== src/Api.antt =====
-- internal/daemonapi/types.go: what the daemon sends to its clients about a workflow.
use lumn.Base.{ℕ, String, List}
use lumn.Report.{Report}
use lumn.Value.{Fields}

pub record WorkflowResponse : Type 0 where
  pub id : String
  pub name : String
  pub version : String
  pub path : String
  pub status : String
  pub triggers : List String
  pub fails : ℕ
  pub next_run : String
  pub last_run : String
  pub last_status : String

pub record TriggerResponse : Type 0 where
  pub kind : String
  pub status : String
  pub next_run : String
  pub config : Fields

-- What an answer of the daemon carries, but for the fields of the process.
pub data Body : Type 0 where
  error_body : String → Body
  -- a text that is no JSON
  plain_text : String → Body
  health : ℕ → Body
  workflows_list : List WorkflowResponse → Body
  workflow_detail : WorkflowResponse → List TriggerResponse → Body
  mutation : String → String → Body
  exec_result : ℕ → Report → Body

-- The status and the body of an answer.
pub record Response : Type 0 where
  pub status : ℕ
  pub body : Body

-- ===== src/Workflows/Store/Records.antt =====
-- The types of workflows/store.go, with the errors and the plans of store_memory.go. A time.Time is
-- nanoseconds since the zero time; revision IDs, which count up from 1, and plan IDs are natural
-- numbers.
use sakumock.Prelude.{ℕ, String, List, [], ◌∷◌, Bool, Option}

abbrev pub Time : Type 0
Time = ℕ

-- A Tag is its name.
pub record WorkflowRecord : Type 0 where
  pub id : String
  pub name : String
  pub description : String
  pub publish : Bool
  pub logging : Bool
  pub tags : List String
  pub service_principal_id : String
  pub concurrency_mode : String
  pub created_at : Time
  pub updated_at : Time

pub record RevisionRecord : Type 0 where
  pub revision_id : ℕ
  pub workflow_id : String
  pub revision_alias : String
  pub runbook : String
  pub created_at : Time
  pub updated_at : Time

pub record ExecutionRecord : Type 0 where
  pub execution_id : String
  pub name : String
  pub workflow_id : String
  pub status : String
  pub revision : ℕ
  pub revision_alias : String
  pub args : String
  pub step_count : ℕ
  pub result : String
  pub error : String
  pub created_at : Time
  pub updated_at : Time
  pub run_at : Option Time
  pub failed_at : Option Time
  pub succeeded_at : Option Time
  pub cancel_requested_at : Option Time
  pub canceled_at : Option Time

pub record SubscriptionRecord : Type 0 where
  pub id : String
  pub account_id : String
  pub contract_id : String
  pub plan_id : ℕ
  pub plan_name : String
  pub activate_from : Time
  pub activate_until : Option Time
  pub created_at : Time
  pub updated_at : Time

pub record HistoryRecord : Type 0 where
  pub workflow_execution_id : String
  pub job_id : String
  pub thread_id : String
  pub typ : String
  pub created_at : Time
  pub meta : String
  pub stack_trace : String
  pub variables : String

-- `none` leaves a field as it is.
pub record WorkflowUpdates : Type 0 where
  pub name : Option String
  pub description : Option String
  pub publish : Option Bool
  pub logging : Option Bool
  pub tags : Option (List String)
  pub concurrency_mode : Option String

pub record ExecutionStatusUpdate : Type 0 where
  pub status : String
  pub result : String
  pub error : String
  pub run_at : Option Time
  pub succeeded_at : Option Time
  pub failed_at : Option Time

pub record ExecutionInput : Type 0 where
  pub revision_id : Option ℕ
  pub revision_alias : String
  pub args : String
  pub name : String
  pub initial_status : String

-- The errors of the store, with what they print
pub data StoreError : Type 0 where
  workflow_not_found alias_exists alias_not_found execution_not_found : String → StoreError
  revision_not_found plan_not_found : ℕ → StoreError
  active_executions not_executable no_revisions : StoreError
  -- The status of the execution
  not_cancelable not_deletable : String → StoreError

pub record PlanDef : Type 0 where
  pub id : ℕ
  pub name : String
  pub grade : ℕ
  pub service_class_path : String
  pub base_price : ℕ
  pub included_steps : ℕ
  pub overage_step_unit : ℕ
  pub overage_price_per_unit : ℕ

abbrev pub static_plans : List PlanDef
static_plans =
    record {
      id = 1;
      name = "200Kプラン";
      grade = 200;
      service_class_path = "cloud/workflow/200k";
      base_price = 4000;
      included_steps = 200_000;
      overage_step_unit = 1000;
      overage_price_per_unit = 80;
    }
    ∷ record {
      id = 2;
      name = "600Kプラン";
      grade = 300;
      service_class_path = "cloud/workflow/600k";
      base_price = 10_000;
      included_steps = 600_000;
      overage_step_unit = 1000;
      overage_price_per_unit = 80;
    }
    ∷ []

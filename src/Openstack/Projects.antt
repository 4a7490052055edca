-- ===== src/Openstack/Projects.antt =====
-- app/services/identity/tenant_service.py, TenantService, with app/schemas/identity/tenant.py.
use v_machine.Prelude.{String, Bool, Option, none, List, map}
use v_machine.Prelude.Exec.{pure, ◌>>=◌}
use v_machine.Openstack.Client.{Api, Listing, Sdk, Action, call, listed}
use v_machine.Openstack.Cached.{required, deleted_or}

-- The attributes that are read of a project of the SDK.
pub record Project : Type 0 where
  pub id : Option String
  pub name : Option String
  pub domain_id : Option String
  pub enabled : Option Bool

pub record ProjectSummary : Type 0 where
  pub id : Option String
  pub name : Option String
  pub domain_id : Option String
  pub enabled : Option Bool
  pub operation_task_id : Option String

pub record ProjectCreateRequest : Type 0 where
  pub name : String
  pub description : Option String
  pub enabled : Bool

-- A call, with all fields of the request; `delete_project` has ignore_missing=True.
pub data ProjectCall : Type 0 where
  projects : ProjectCall
  get_project delete_project : String → ProjectCall
  create_project : ProjectCreateRequest → ProjectCall

abbrev operation_of : ProjectCall → String
operation_of projects = "projects"
operation_of (get_project id) = "get_project"
operation_of (delete_project id) = "delete_project"
operation_of (create_project request) = "create_project"

abbrev Reply : ProjectCall → Type 0
Reply projects = Listing Project
Reply (get_project id) = Option Project
Reply (delete_project id) = Bool
Reply (create_project request) = Project

abbrev pub project_api : Api
project_api = record {
  Call = ProjectCall;
  service_of = λ c. "identity";
  operation_of = operation_of;
  Reply = Reply;
}

abbrev pub project_summary : Project → ProjectSummary
project_summary p = record {
  id = p.id;
  name = p.name;
  domain_id = p.domain_id;
  enabled = p.enabled;
  operation_task_id = none;
}

module _ {S : Type 0} (sdk : Sdk project_api) where
  unfoldable pub list_projects : Action project_api S (List ProjectSummary)
  list_projects = do
    listing ← call sdk projects
    items ← listed listing
    pure (map project_summary items)

  unfoldable pub get_project_summary : String → Action project_api S ProjectSummary
  get_project_summary project_id = do
    project ← call sdk (get_project project_id)
    project ← required "Project not found" "project_not_found" project
    pure (project_summary project)

  unfoldable pub make_project : ProjectCreateRequest → Action project_api S ProjectSummary
  make_project payload = do
    project ← call sdk (create_project payload)
    pure (project_summary project)

  unfoldable pub remove_project : String → Action project_api S (Unit {0})
  remove_project project_id = do
    deleted ← call sdk (delete_project project_id)
    deleted_or "Project not found" "project_not_found" deleted

-- ===== src/Vmware/Assessment.antt =====
-- app/schemas/vmware/assessment.py: what an assessment and a plan return. Scores and confidences,
-- floats in the source, are in hundredths.
use v_machine.Prelude.{ℕ, String, Bool, List, Option}

-- CompatibilityIssueDetail
pub record Issue : Type 0 where
  pub severity : String
  pub category : String
  pub message : String
  pub compatible : Bool

-- ScoredCompatibilityResult
pub record ScoredResult : Type 0 where
  pub vm_id : String
  pub vm_name : String
  pub compatible : Bool
  pub score : ℕ
  pub issues : List Issue
  pub summary : String

-- FlavorMatchResult; the score is a float of the model that the mapping takes.
pub record FlavorMatch (F : Type 0) : Type 0 where
  pub flavor_id : String
  pub flavor_name : String
  pub score : F
  pub vcpus : ℕ
  pub ram : ℕ
  pub disk : ℕ
  pub overprovisioned : Bool
  pub underprovisioned : Bool

-- NetworkMappingResult
pub record NetworkMapping : Type 0 where
  pub vm_network : String
  pub openstack_network_id : Option String
  pub openstack_network_name : Option String
  pub match_type : String
  pub confidence : ℕ

-- DiskMappingResult
pub record DiskMapping : Type 0 where
  pub vm_disk_label : String
  pub vm_disk_gb : ℕ
  pub openstack_volume_type : Option String
  pub openstack_size_gb : ℕ
  pub bootable : Bool

-- VMMappingResult
pub record VmMapping (F : Type 0) : Type 0 where
  pub vm_id : String
  pub vm_name : String
  pub flavor_match : Option (FlavorMatch F)
  pub network_mappings : List NetworkMapping
  pub disk_mappings : List DiskMapping

-- MigrationStep
pub record Step : Type 0 where
  pub order : ℕ
  pub action : String
  pub description : String
  pub resource_id : Option String
  pub estimated_minutes : ℕ

-- MigrationPlanVM
pub record PlanVm : Type 0 where
  pub vm_id : String
  pub vm_name : String
  pub priority : ℕ
  pub target_flavor_id : Option String
  pub target_network_ids : List String
  pub target_volume_types : List String
  pub estimated_downtime_minutes : ℕ
  pub steps : List Step
  pub estimated_total_minutes : ℕ

-- MigrationPlanResponse
pub record PlanResponse : Type 0 where
  pub plan_id : String
  pub vms : List PlanVm
  pub total_vms : ℕ
  pub total_estimated_minutes : ℕ
  pub created_at : String

-- ParallelAssessmentProgress
pub record Progress : Type 0 where
  pub task_id : String
  pub total_vms : ℕ
  pub completed : ℕ
  pub failed : ℕ
  pub in_progress : ℕ
  pub status : String

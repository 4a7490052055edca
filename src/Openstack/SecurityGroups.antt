-- ===== src/Openstack/SecurityGroups.antt =====
-- app/services/openstack/security_group_service.py, SecurityGroupService, with
-- app/schemas/openstack/security_group.py.
use v_machine.Prelude.{ℕ, String, Bool, Option, none, some, List, map, str_eq, if◌then◌else◌}
use v_machine.Prelude.Exec.{pure, ◌>>=◌}
use v_machine.Openstack.Client.{Api, Listing, Sdk, Action, call, listed}
use v_machine.Openstack.Cached.{required, deleted_or, attribute}
use v_machine.Openstack.Summary.{unless_empty}

-- The attributes that are read of a rule and of a group of the SDK.
pub record Rule : Type 0 where
  pub id : Option String
  pub direction : Option (Option String)
  pub protocol : Option String
  pub port_range_min : Option ℕ
  pub port_range_max : Option ℕ
  pub remote_ip_prefix : Option String
  pub ethertype : Option (Option String)

pub record SecurityGroup : Type 0 where
  pub id : Option String
  pub name : Option String
  pub description : Option (Option String)
  pub security_group_rules : List Rule

pub record SecurityGroupSummary : Type 0 where
  pub id : Option String
  pub name : Option String
  pub description : Option String
  pub project_id : Option String

pub record SecurityGroupRuleSummary : Type 0 where
  pub id : Option String
  pub security_group_id : Option String
  pub direction : Option String
  pub ethertype : Option String
  pub protocol : Option String
  pub port_range_min : Option ℕ
  pub port_range_max : Option ℕ
  pub remote_ip_prefix : Option String

pub record SecurityGroupCreateRequest : Type 0 where
  pub name : String
  pub description : Option String

pub record SecurityGroupRuleCreateRequest : Type 0 where
  pub direction : String
  pub ethertype : String
  pub protocol : Option String
  pub port_range_min : Option ℕ
  pub port_range_max : Option ℕ
  pub remote_ip_prefix : Option String

-- A call; the deletions have ignore_missing=True, and an argument that is none is left out, but for
-- the description and the protocol.
pub data GroupCall : Type 0 where
  security_groups : GroupCall
  get_security_group delete_security_group delete_security_group_rule : String → GroupCall
  create_security_group : SecurityGroupCreateRequest → GroupCall
  create_security_group_rule : SecurityGroupRuleCreateRequest → GroupCall

abbrev operation_of : GroupCall → String
operation_of security_groups = "security_groups"
operation_of (get_security_group id) = "get_security_group"
operation_of (delete_security_group id) = "delete_security_group"
operation_of (delete_security_group_rule id) = "delete_security_group_rule"
operation_of (create_security_group request) = "create_security_group"
operation_of (create_security_group_rule request) = "create_security_group_rule"

abbrev Reply : GroupCall → Type 0
Reply security_groups = Listing SecurityGroup
Reply (get_security_group id) = Option SecurityGroup
Reply (delete_security_group id) = Bool
Reply (delete_security_group_rule id) = Bool
Reply (create_security_group request) = SecurityGroup
Reply (create_security_group_rule request) = Rule

abbrev pub group_api : Api
group_api = record {
  Call = GroupCall;
  service_of = λ c. "network";
  operation_of = operation_of;
  Reply = Reply;
}

abbrev pub group_summary : SecurityGroup → SecurityGroupSummary
group_summary sg = record {
  id = sg.id;
  name = sg.name;
  description = attribute (some "") sg.description;
  project_id = none;
}

abbrev pub rule_summary : Rule → SecurityGroupRuleSummary
rule_summary rule = record {
  id = rule.id;
  security_group_id = none;
  direction = attribute (some "") rule.direction;
  ethertype = attribute (some "IPv4") rule.ethertype;
  protocol = rule.protocol;
  port_range_min = rule.port_range_min;
  port_range_max = rule.port_range_max;
  remote_ip_prefix = rule.remote_ip_prefix;
}

-- the arguments of the call; there is no security group among them
abbrev pub rule_args : SecurityGroupRuleCreateRequest → SecurityGroupRuleCreateRequest
rule_args payload = record payload {
  ethertype = if str_eq payload.ethertype "" then "IPv4" else payload.ethertype;
  remote_ip_prefix = unless_empty payload.remote_ip_prefix;
}

module _ {S : Type 0} (sdk : Sdk group_api) where
  unfoldable pub list_security_groups : Action group_api S (List SecurityGroupSummary)
  list_security_groups = do
    listing ← call sdk security_groups
    items ← listed listing
    pure (map group_summary items)

  -- the lookup of a group, and its guard
  unfoldable pub find_group : String → Action group_api S SecurityGroup
  find_group security_group_id = do
    sg ← call sdk (get_security_group security_group_id)
    required "Security group not found" "security_group_not_found" sg

  unfoldable pub get_group_summary : String → Action group_api S SecurityGroupSummary
  get_group_summary security_group_id = do
    sg ← find_group security_group_id
    pure (group_summary sg)

  unfoldable pub make_group : SecurityGroupCreateRequest → Action group_api S SecurityGroupSummary
  make_group payload = do sg ← call sdk (create_security_group payload); pure (group_summary sg)

  unfoldable pub remove_group : String → Action group_api S (Unit {0})
  remove_group security_group_id = do
    deleted ← call sdk (delete_security_group security_group_id)
    deleted_or "Security group not found" "security_group_not_found" deleted

  unfoldable pub list_rules : String → Action group_api S (List SecurityGroupRuleSummary)
  list_rules security_group_id = do
    sg ← find_group security_group_id
    pure (map rule_summary sg.security_group_rules)

  unfoldable pub create_rule :
      SecurityGroupRuleCreateRequest → Action group_api S SecurityGroupRuleSummary
  create_rule payload = do
    rule ← call sdk (create_security_group_rule (rule_args payload))
    pure (rule_summary rule)

  unfoldable pub delete_rule : String → Action group_api S (Unit {0})
  delete_rule rule_id = do
    deleted ← call sdk (delete_security_group_rule rule_id)
    deleted_or "Security group rule not found" "rule_not_found" deleted

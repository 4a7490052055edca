-- ===== src/Endpoints/Networking.antt =====
-- app/api/v1/endpoints/openstack/networks.py, routers.py and security_groups.py: the requests that change
-- something. The services have no `add_interface` and `remove_interface`, their create_rule takes no
-- security group, and what their creations return has no `network_id`, `router_id`, `security_group_id`
-- and `rule_id`: each of these raises where the source reads or calls it.
use v_machine.Prelude.{ℕ, String, Option, some, List}
use v_machine.Prelude.Exec.{Result, raise, throw}
use v_machine.Cache.Backend.{Backend}
use v_machine.Database.{Database}
use v_machine.Openstack.Server.{Exception, sdk_error}
use v_machine.Openstack.Client.{Sdk, World}
use v_machine.Openstack.Networks.{
  network_api, NetworkItem, NetworkSummary, NetworkCreateRequest, make_network, remove_network,
}
use v_machine.Openstack.Routers.{
  router_api, RouterSummary, RouterCreateRequest, make_router, remove_router,
}
use v_machine.Openstack.SecurityGroups.{
  group_api, SecurityGroupSummary, SecurityGroupRuleSummary, SecurityGroupCreateRequest,
  SecurityGroupRuleCreateRequest, make_group, remove_group, delete_rule,
}
use v_machine.Orchestration.Tasks.{OperationTask}
use v_machine.Endpoints.Tracking.{
  Response, Job, Endpoint, no_content, with_task, on_target, creation, tracked,
}

-- reading an attribute that a model does not have
abbrev pub no_attribute : {A : Type 0} → A → Result Exception (Option String)
no_attribute a = raise (sdk_error "AttributeError")

module _ (db : Database OperationTask) (others : Exception → String) where
  module _ (sdk : Sdk network_api) (cache : Backend (List NetworkItem)) (list_limit : ℕ) where
    abbrev pub network_creation :
        NetworkCreateRequest
        → Job (World network_api cache.State) NetworkSummary (NetworkSummary × String)
    network_creation payload =
        creation "create_network" "network" payload.name (make_network sdk cache list_limit payload)
          no_attribute with_task

    unfoldable pub create_network :
        NetworkCreateRequest → Endpoint db (World network_api cache.State) (NetworkSummary × String)
    create_network payload = tracked db others (λ w. w.clock) (network_creation payload)

    unfoldable pub delete_network : String → Endpoint db (World network_api cache.State) Response
    delete_network network_id =
        tracked db others (λ w. w.clock)
          (on_target "delete_network" "network" network_id
            (remove_network sdk cache list_limit network_id) no_content)

  module _ {S : Type 0} (sdk : Sdk router_api) where
    abbrev pub router_creation :
        RouterCreateRequest → Job (World router_api S) RouterSummary (RouterSummary × String)
    router_creation payload =
        creation "create_router" "router" payload.name (make_router sdk payload) no_attribute
          with_task

    unfoldable pub create_router :
        RouterCreateRequest → Endpoint db (World router_api S) (RouterSummary × String)
    create_router payload = tracked db others (λ w. w.clock) (router_creation payload)

    unfoldable pub delete_router : String → Endpoint db (World router_api S) Response
    delete_router router_id =
        tracked db others (λ w. w.clock)
          (on_target "delete_router" "router" router_id (remove_router sdk router_id) no_content)

    abbrev pub unknown_method : String → String → Job (World router_api S) (Unit {0}) Response
    unknown_method operation_type router_id =
        on_target operation_type "router" router_id (throw (sdk_error "AttributeError")) no_content

    unfoldable pub add_interface : String → String → Endpoint db (World router_api S) Response
    add_interface router_id subnet_id =
        tracked db others (λ w. w.clock) (unknown_method "add_interface" router_id)

    unfoldable pub remove_interface : String → String → Endpoint db (World router_api S) Response
    remove_interface router_id subnet_id =
        tracked db others (λ w. w.clock) (unknown_method "remove_interface" router_id)

  module _ {S : Type 0} (sdk : Sdk group_api) where
    abbrev pub group_creation :
        SecurityGroupCreateRequest
        → Job (World group_api S) SecurityGroupSummary (SecurityGroupSummary × String)
    group_creation payload =
        creation "create_security_group" "security_group" payload.name (make_group sdk payload)
          no_attribute with_task

    unfoldable pub create_security_group :
        SecurityGroupCreateRequest → Endpoint db (World group_api S) (SecurityGroupSummary × String)
    create_security_group payload = tracked db others (λ w. w.clock) (group_creation payload)

    unfoldable pub delete_security_group : String → Endpoint db (World group_api S) Response
    delete_security_group security_group_id =
        tracked db others (λ w. w.clock)
          (on_target "delete_security_group" "security_group" security_group_id
            (remove_group sdk security_group_id) no_content)

    abbrev pub rule_creation :
        String
        → Job (World group_api S) SecurityGroupRuleSummary (SecurityGroupRuleSummary × String)
    rule_creation security_group_id = record {
      operation_type = "create_security_group_rule";
      target_type = "security_group";
      target_id = security_group_id;
      work = throw (sdk_error "TypeError");
      target_done = no_attribute;
      target_failed = some security_group_id;
      respond = with_task;
    }

    unfoldable pub create_security_group_rule :
        String
        → SecurityGroupRuleCreateRequest
        → Endpoint db (World group_api S) (SecurityGroupRuleSummary × String)
    create_security_group_rule security_group_id payload =
        tracked db others (λ w. w.clock) (rule_creation security_group_id)

    unfoldable pub delete_security_group_rule : String → Endpoint db (World group_api S) Response
    delete_security_group_rule rule_id =
        tracked db others (λ w. w.clock)
          (on_target "delete_security_group_rule" "security_group_rule" rule_id
            (delete_rule sdk rule_id) no_content)

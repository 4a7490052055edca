-- ===== src/Lib.antt =====
-- vMachine: the services that list and assess VMware VMs, map them to OpenStack, plan their
-- migration and provision VMs, with the endpoints that call them as operation tasks, and the cache
-- and the audit queue that they share.
--
-- The parts and how they interact:
--   * Vmware.Compatibility (app/services/vmware/compatibility.py): `evaluate` runs eleven checks of
--     a VM, each of which appends issues, and makes a score and a verdict of them.
--   * Vmware.Mapping (app/services/vmware/mapping_engine.py): `map_vm` finds a flavor, networks and
--     volumes for a VM; the engine caches OpenStack's flavors and networks.
--   * Vmware.Plan (app/services/vmware/plan_service.py): `generate_plan` takes the VMs with their
--     verdicts and mappings, and orders the compatible ones in a plan with numbered steps.
--   * Vmware.Parallel (app/services/vmware/parallel_assessment.py): `assess_parallel` evaluates and
--     maps many VMs, each with one retry, and publishes its progress.
--   * Vmware.Pool (app/clients/vmware/pool.py): `acquire`, `connection` and `disconnect_all` of the
--     pool of vCenter connections, with the health check and the expiry of sessions. The sections
--     that the lock makes of these may interleave (`Section`). A connection stands in the pool once.
--   * Vmware.Vim, Vmware.Client and Vmware.Factory (app/clients/vmware/connection.py): what is read of
--     the objects of vCenter, and the listings of the client, each through the pool and with its
--     metrics.
--   * Vmware.Discovery (app/services/vmware/inventory_service.py): the listings of VMs, datastores and
--     networks with their caches, and `sync_inventory`, whose writes are scheduled.
--   * Vmware.Inventory and Vmware.Assessment (app/schemas/vmware): the data of these services.
--   * Openstack.Server, Openstack.Connection (app/clients/openstack/connection.py): servers as
--     Nova's SDK gives them, the cached connection, and a call with a timeout.
--   * Openstack.Lifecycle (app/services/openstack/vm_provisioning_engine.py): `create_vm`,
--     `start_vm`, `stop_vm`, `reboot_vm` and `delete_vm`, with the states in which each is allowed
--     (States), the polling loops (Polling), and their metrics and audit entries.
--   * Openstack.Client (app/clients/openstack/connection.py): `create` and `call` of the factory,
--     with the metrics of each call, for the calls that a service makes (`Api`).
--   * Openstack.Compute, Volumes, Images, Networks, Routers, SecurityGroups, Keypairs, Flavors
--     and Projects (app/services/openstack, a file for each, and for the last
--     app/services/identity/tenant_service.py): all methods, on the client and, where the source
--     caches, on a cache that is known by the interface Cache.Backend alone (Cached).
--     Openstack.Calls and Openstack.Summary have the calls and the data of the compute service.
--   * Openstack.Storage (app/services/openstack/storage_service.py): storage pools.
--   * Cache (app/common/utils/cache.py): TTLCache and its counters.
--   * Cache.Backend (app/common/utils/openstack_cache.py, the protocol): the operations of a cache of
--     lists and its laws. Cache.Memory and Cache.Redis (app/common/utils/redis_cache.py) implement
--     it, Cache.Dispatch chooses one of them at startup and passes the services' calls on.
--   * Audit (app/services/core/audit_service.py): the queue, the flush worker as steps that
--     interleave with the tasks that enqueue, and the drain; a transaction may be refused, or end in
--     a TimeoutError, which the worker catches.
--   * Database (app/db/session/session.py): the sessions as an interface with laws, and the accesses
--     that the services share. Database.Single is a table that meets the laws. The source
--     commits and then refreshes, so a write that raises may have been stored.
--   * Orchestration (app/services/orchestration and app/services/core/operation_task_service.py):
--     operation tasks, migrations, scaling policies, scheduled tasks, and clusters, whose
--     `batch_deploy` creates servers by Openstack.Compute.
--   * Monitoring.Alerts and Monitoring.Usage (app/services/monitoring/monitoring_service.py): alerts,
--     the dashboard, which lists servers by Openstack.Compute, and the usage read of metrics.
--   * Endpoints (app/api/v1/endpoints, a file for a group of them): the requests that create an
--     operation task, call a service and end the task. Tracking has the steps that they share,
--     Settled what follows from them; Repeated and Assessing follow an assessment of VMs through the
--     inventory, where the file Vmware composes the services of a request, and time passes between
--     its lookups. The source makes new services for each request, here they are the world that it
--     starts from.
--   * Prelude: what these share. Prelude.Dict is Python's dict with text keys, Prelude.Exec methods
--     that change an object and may raise, Prelude.Hoare and Prelude.Ends conditions before and after
--     them.
--
-- Data is modelled as the source has it: classes are records with the source's fields, None is
-- `none`, exceptions are values. Sizes, counts and times are natural numbers; times of the
-- provisioning engine are in milliseconds, its intervals of whole seconds. Scores and
-- confidences are in hundredths: the weights of the source are such, and each threshold agrees
-- with the float comparison at each score that can arise. The floats of flavor matching are a
-- parameter with the order's laws. A listing of OpenStack is answered whole, also where the SDK
-- yields it piece by piece. Text is folded to lower case in ASCII. Python's sort is a stable
-- insertion sort.
--
-- What is outside the repository is a parameter: OpenStack's answers (`Openstack`), Nova's SDK with
-- the outcome and the duration of every call (`Nova`), the database (`refuses`), what an assessment
-- attempt meets (`Conditions`), vCenter (`Vcenter`, `Vsphere`), the SDK of OpenStack (`Sdk`), Redis
-- (`RedisClient`), json (`Json`), the sessions of the database (`Database`), the text of an exception
-- (`others`) and the division of bytes to gigabytes (`to_gb`); random ids and timestamps are
-- arguments.
-- Metrics and audit entries are logs of what the source observes, by their labels.
--
-- The polling loops run on fuel: `rounds timeout` is one more than the poll intervals that fit
-- in the timeout, and each round sleeps one interval, so the deadline passes before the fuel
-- ends. Loops follows the loops by the statuses that they read.
--
-- Not modelled: logging; of the HTTP layer the routing, the validation of requests and the endpoints
-- that only read or create no task; telemetry and the metrics registry, which are declarations or
-- input and output; the Kubernetes service and its endpoints, which call its client; the checks of tokens; the tables
-- of assessments; the write of a snapshot when its scheduled task runs; and of monitoring the metric
-- queue, the latest metrics and the usage of projects.
pub mod Prelude
pub mod Vmware
pub mod Openstack
pub mod Cache
pub mod Audit
pub mod Database
pub mod Orchestration
pub mod Monitoring
pub mod Endpoints

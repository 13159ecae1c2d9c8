-- ===== src/Lib.antt =====
-- Exordos Core is a platform that keeps infrastructure in the state that users declare: services
-- run in loops, read target objects from a database and act on them.
--
-- The parts that are modelled, with the files that model them:
--
-- Address management (exordos_core/network/ipam.py): `Ipam` holds the class `Ipam`, whose state is
-- the dictionary from subnets to pools, and `Ipam/Pool` the list of ranges of free addresses with
-- `occupy_ip` and `deallocate_ip`. `Ipam/Calculate`, `Ipam/Allocate`, `Ipam/Canonical`,
-- `Ipam/Sessions`, `Ipam/State` and `Ipam/View` hold the proofs. Addresses are the numbers that
-- `int(netaddr.IPAddress(...))` gives; netaddr, and the way in which a subnet is a key of a
-- dictionary, are the parameter `Library`.
--
-- The network service (exordos_core/network/service.py): `Network` holds the loops of
-- `NetworkService._iteration` that give addresses to nodes and hardware ports, with
-- `_allocate_port`, the exception handlers and the variable `port` that outlives a round. How
-- `port.insert()` ends is a field of the node. `Network/Port`, `Network/Stored`, `Network/Rounds`,
-- `Network/Addresses` and `Network/Reuse` hold the proofs. Whether an exception of `Ipam` is a
-- `ValueError` is decided by its base class in a library, and is a field of `Env`. The part that
-- compares ports with the data plane is not modelled: it is a sequence of driver calls.
--
-- The scheduler (exordos_core/compute/scheduler/service.py): `Scheduler/Volumes` holds the
-- placement of the volumes of a node into a machine pool (`_place_volume_into_pool`,
-- `_allocate_node_volumes` with the handler that takes everything back,
-- `_machine_has_disk_capacity`). The idle volumes are shared objects that the placement changes in
-- place: their fields are a function of their uuid. The storage pools are classes of gcl_sdk: what
-- the scheduler calls of them is the parameter `StorageLib`, and what is documented of it the
-- hypothesis `IsStorageLib`. `Scheduler/Filters` holds the filters of
-- exordos_core/compute/scheduler/driver/filters, with the rows that their queries read as a value
-- `Tables`. `Scheduler/Nodes` holds `_schedule_on_pools` and `_place_node_into_pool`: the weights
-- are floating-point numbers and are the parameter `Weights`, the weighters are functions, and
-- whether the calls of `save()` succeed is the function `saves`. What a placement that fails
-- half-way leaves in the tables, the placement on existing machines, and the scheduling of pools
-- are not modelled. The proofs are in `Scheduler/Volumes/Lists`, `Scheduler/Volumes/Placed`,
-- `Scheduler/Volumes/Owners`, `Scheduler/Volumes/Rollback`, `Scheduler/Filters/Mates`,
-- `Scheduler/Filters/Suitable`, `Scheduler/Filters/Exact`, `Scheduler/Nodes/Ranked` and
-- `Scheduler/Nodes/Room`.
--
-- The schemas of manifests (exordos_core/elements/dm/utils.py): `Schema` holds `iter_schema_refs`,
-- `copy_schema_closure` and `resolve_schema` on JSON values in which a string is only known as a
-- reference to a component schema or as something else; a component schema is an object. The two
-- `while` loops run on fuel: one more than the number of all references for the first, one more
-- than the number of schemas for the second; each round uses up one of them. `Schema/Pending`,
-- `Schema/Copy` and `Schema/Resolve` hold the proofs.
--
-- The element engine (exordos_core/elements/dm/models.py): `Engine` holds the classes `Namespace`
-- and `ElementEngine` with their methods, `Engine/Database` the methods that fill the engine from
-- the tables, which are a value. Links are numbers, and an argument that is a link is its part in
-- front of the parameter and the parameter, since the engine only cuts the parameter off
-- (`utils.clear_parameters`). `Engine/Coherent`, `Engine/Calls`, `Engine/Found` and
-- `Engine/Loaded` hold the proofs. The rendering of resources and the manifests that drive the
-- engine are not modelled.
--
-- Quotas (exordos_core/quota/dm/models.py): `Quota` holds the limits of a project, its own rows
-- and the default ones, the check, and `insert`, with the rows that the queries read as lists; the
-- branch for an invalid configuration, which no modelled code raises, is left out. `Quota/Limits`
-- holds the proofs.
--
-- Accounts (exordos_core/user_api/iam/dm/models.py): `Iam/Account` holds `ModelWithSecret`, the
-- methods of `User` for passwords, one-time codes and confirmation codes, the sources of users,
-- the password check of `IamClient`, and the clean-up of exordos_core/janitor/service.py. The
-- hash, the one-time codes and the Keycloak server are the parameter `Library`. What a request
-- that raises had changed is rolled back, and is not kept. `Iam/Account/Secrets`,
-- `Iam/Account/Codes`, `Iam/Account/Login` and `Iam/Account/Janitor` hold the proofs.
--
-- Tokens (exordos_core/user_api/iam/dm/models.py, user_api/iam/drivers.py and iam/service.py):
-- `Iam/Token` holds `Token` and `ManagedToken` with their creation, refresh, renewal and
-- regeneration, what `DirectDriver` checks of an access token, and the rounds of
-- `TokenRenewalService`; `Iam/Directory` holds the projects and role bindings they read.
-- `Iam/Oidc` holds `Idp.authorize`, `IdpAuthorizationInfo.confirm` and the exchange of a code, on
-- `Iam/Base64`; the hash and the match of a stored pattern are parameters. `Iam/ServiceToken`
-- holds the tokens of service accounts. Signing of tokens and the bodies of answers are not
-- modelled. Decoding is the parameter `decodes` in `Iam/Token/Validity`: whether the library lets
-- a token with the expiration that was signed into it pass. `Iam/Token/Renewal` and
-- `Iam/Token/Refresh` hold the proofs on lifetimes.
--
-- DNS synchronisation (exordos_core/dns_sync/service.py): `Dns` holds the marks and the
-- dictionaries of records, `Dns/Calls` the requests, `Dns/Domains` the full reconciliation and the
-- fast sync, and `Dns/Service` the rounds. The ecosystem server is a parameter, `Dns/Server`, with
-- what its documentation says of the rows behind it; the rounds are the only ones to write there
-- meanwhile. `Dns/Safe`, `Dns/Sync`, `Dns/Kept` and `Dns/Rounds` hold the proofs of what no round
-- changes; `Dns/Reliable`, `Dns/Created`, `Dns/Settled`, `Dns/Deleted`, `Dns/Copied`,
-- `Dns/Mirrored` and `Dns/Zone` those of what a full reconciliation leaves. The file for dnsdist
-- is not modelled.
--
-- Values and profiles (exordos_core/vs/dm/models.py and vs/builders/service.py): `Values` holds
-- the activation of profiles, the setters of variables, the selection of values and the hook of
-- the builder. Whether the ORM writes an object that was not changed is an argument of the calls
-- on which it bears.
--
-- All other modelled loops go over a collection and need no fuel.
mod Base
pub mod Ipam
pub mod Network
pub mod Scheduler
pub mod Schema
pub mod Engine
pub mod Quota
pub mod Iam
pub mod Dns
pub mod Values

-- ===== src/Lib.antt =====
-- provider-strapi is a Crossplane provider that manages the permissions of Strapi's users-permissions
-- roles. A `RolePermissions` resource names a role and lists permissions in a flat form; the
-- controller reads the role from Strapi's admin API, compares, and replaces the role's permission tree.
-- This library models the provider's own logic and proves how its parts behave alone and together.
--
-- The parts, from the bottom:
--
-- * Permissions (internal/clients/strapi/roles.go): the tree of resources, controllers and actions that
--   Strapi keeps, `FlattenPermissions`, `ExpandPermissions`, `splitFlat`, `splitAPI`, `splitPlugin` and
--   `implicitController`. A function of the source is a definition of the same name in snake case; a
--   loop or the rest of a function behind a computed index is a definition of its own, which the
--   function uses. Permissions/Grammar describes the flat form without the parser, Permissions/Tree
--   describes a tree by the actions that it enables; the other children hold the proofs.
-- * Roles (the same file): `Role` and `FindRole`.
-- * Client (internal/clients/strapi/strapi.go): the HTTP client with its cached token. Client/Token,
--   Client/Trace, Client/Retry and Client/Steady say which token is used and which requests are sent,
--   Client/Decode when `DoJSON` succeeds, Client/Parsing what `ParseCredentials` accepts; Client/Threads runs `Do` in several goroutines at once, cut at
--   the mutex and at the network, under any scheduler; Client/RolesApi (roles.go beside it) holds `ListRoles`,
--   `GetRole` and `UpdateRole`.
-- * Cache (internal/clients/strapi/cache.go): `Cache`, `Get` and `cacheKey`. Cache/Visits puts the HTTP
--   client behind the pointers of the cache.
-- * Api (apis/permissions/v1alpha1/rolepermissions_types.go): the resource, and Go slices with the
--   difference between the nil slice and one of no elements.
-- * Controller/External (internal/controller/rolepermissions/rolepermissions.go): `Observe`, `Create`,
--   `Update`, `Delete`, `resolveRole` and `applyPermissions`, on the resource behind the pointer `cr`
--   and the world that the interface `strapiClient` talks to. Its children say which role is resolved,
--   what is reported, what is sent, and what the next reconcile finds.
-- * Controller/Connector (the same file, and apis/v1alpha1/types.go): `providerConfigRef` and `Connect`,
--   with the client function that `Setup` installs, which is the cache's `Get`.
-- * Controller/Requests (the interface `strapiClient` of the same file): the external client on top of
--   the HTTP client and the roles API.
-- * Apis (apis/v1alpha1/register.go, apis/permissions/v1alpha1/groupversion_info.go and apis/strapi.go):
--   the groups and kinds, the scheme builders and `AddToScheme`; Apis/Scheme says what a scheme knows
--   afterwards.
-- * Controller/Setup (internal/controller/strapi.go, config/config.go, and `Setup` of
--   rolepermissions.go): the registration of the three controllers, in Setup/Config,
--   Setup/RolePermissions and Setup/Gated. Setup/Plan is the sequence of calls that `SetupGated` is to
--   make; Setup/OptionList, Setup/Options and Setup/Calls hold the proofs.
-- * Provider (cmd/provider/main.go): the flags (Provider/Flags) and `main` (Provider/Run). Provider/Plan is
--   the sequence of calls that `main` is to make, Provider/Start that it makes them.
-- * Text, GoMap, Decimal, Exec and Prelude: strings as lists of code points with the functions of
--   package strings and sort that the code calls, Go maps, `strconv.Itoa` and `Atoi`, errors as values
--   beside the state, and shared helpers. Exec/Journal writes down the calls of code behind a parameter
--   and compares them with a plan. Tests evaluates the code on concrete inputs.
--
-- How code and model correspond. A method that changes a state and may fail is a function from the
-- state to a result and a state, so that what was written before a failure stays written. A Go map is
-- the list of its entries in the order in which one `range` visits them, and the properties speak of
-- every order. In the heap of clients in the cache a client that two callers share is one object. A
-- section under a mutex is one step; interleavings of such steps are sequences of them (Cache/Steps,
-- Client/Threads). The integer of a role is a 64-bit one where it is read and written as a numeral
-- (Prelude/Int). Loops are structural recursion over lists; `decimal` alone has fuel, the number itself
-- plus one, which is more than a number has digits.
--
-- What is a parameter: the case tables of package unicode (Text/Fold), crossplane-runtime's accessors
-- of the object (Api), the Kubernetes client, usage tracker and credential extractor
-- (Controller/Connector), net/http and encoding/json (Client), SHA-256 (Cache), the Strapi server
-- (Controller/External/Server), apimachinery's schemes (Apis), the manager and the types of
-- crossplane-runtime (Controller/Setup), and kingpin, zap, gRPC and the metrics (Provider), each with
-- its documented behaviour as named laws where a theorem needs it. A run of `main` ends where kingpin
-- ends the program or a panic does: both are errors here, which end what would come next.
--
-- What is not modelled: the rendering of error messages (an error is the value of what failed, with the
-- status and the start of the body, trimmed; what 512 bytes of it read as is a parameter), the JSON texts,
-- the closing of response bodies, contexts and timeouts, logging and help texts, and generated code
-- (the zz_generated files of apis), which holds deep copies and accessors.
pub mod Prelude
pub mod Text
pub mod GoMap
pub mod Permissions
pub mod Provider
pub mod Decimal
pub mod Roles
pub mod Exec
pub mod Api
pub mod Apis
pub mod Client
pub mod Cache
pub mod Controller
pub mod Tests

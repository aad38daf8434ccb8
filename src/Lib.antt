-- ===== src/Lib.antt =====
-- The Infisical entity operator: a Kubernetes operator that keeps organizations, projects,
-- environments and machine identities of Infisical as custom resources describe them.
--
-- The parts, and the files that model them:
--   Api: api/infisical/v1alpha1 (common.go and the *_types.go of connections, organizations,
--     projects, environments, identities and the two auth methods): one record per Go struct, with its
--     decidable equality, which stands for the comparison that a merge patch makes.
--   Failure: the error types of internal/controller/infisical/common.go, of
--     infisicalidentity_controller.go and of internal/infisicalclient/client.go, with what errors.As
--     finds in them, and the retry intervals.
--   Client: internal/infisicalclient. Wire holds the structs and their JSON, Http the exchange of
--     one request (doWithToken), Token the bearer token (bearerToken, do), and Projects,
--     Organizations, Environments, Identities, Memberships, UniversalAuth and KubernetesAuth the
--     methods of the files of these names. FindX is find_x, and so on.
--   Controller: internal/controller/infisical. Conditions, Policies, Roles, Connections and Objects
--     model common.go and what all controllers share, and Status how the status is written; Connection,
--     Organization, Project, Environment, Identity, UniversalAuth and KubernetesAuth model the controllers
--     of these kinds. UniversalAuth.Recovery and UniversalAuth.Rotation are
--     ensureUniversalAuthClientSecret, and UniversalAuth.Publish is publishUniversalAuthSecret; KubernetesAuth.Spec is
--     validateKubernetesAuthSpec, and KubernetesAuth.Csv is splitCSV and joinCSV. Optional compares
--     settings that may be left out. Watches holds the map functions that SetupWithManager of each
--     controller gives to its watches, and Safety what holds of several controllers. A child
--     State holds the status and the requests of a controller, a child Calls says which calls the
--     functions of a module make, and a child Tests has runs and instances; the other children are named
--     for what they prove.
--   Exec, Platform: how code with effects is modelled. A function with effects takes the run so far
--     and gives a result and the run after it. The run holds every call made to Kubernetes and to
--     Infisical, and the token that the API client has cached. The answers, the clock and the parsers
--     are a parameter, Platform: each answer is a function of all calls so far, so that a theorem
--     holds for every behaviour of the servers. An early return of a handler is an error of the
--     monad that carries the response (or_return).
--   Demo: the data of the tests.
--   Base, Result, Json: texts, lists, association lists, integers, Go's pair of a value and an error,
--     and JSON values as encoding/json reads and writes them for the structs in use.
--
-- How the parts interact: a controller reads its object and the objects that it refers to, builds an
-- API client from the connection (Connections), calls the client, and writes the status back
-- (Objects, Conditions).
--
-- Conventions: durations and times are nanoseconds, a time is 0 where it is the zero time, and the
-- fields of a `float64` number of seconds are read as whole numbers; a validity of a token beyond 2 ^ 62
-- nanoseconds, where Go's conversion rounds or overflows, is what Platform says. A nil slice is the empty list
-- where the code does not tell them apart, and an Option where it does. Every loop is structural
-- recursion on a list, so no fuel is used. The locks of the client are left out: one reconciliation
-- uses its own client. The readings of the clock between two calls are numbered from 0 in each
-- function that takes some, so the time of a rotation is the first that the conditions may take. The
-- object that a function changes in place is part of its result, and of its error where the caller
-- reports the error on it. A status patch that would differ from its base only in nil against empty is
-- left out.
--
-- Not modelled: the text of JSON, net/url's parser, base64, the HTTP transport and the Kubernetes
-- client, which are fields of Platform, as are net.ParseIP, net.ParseCIDR, and what controller-runtime
-- says of owners (GetControllerOf, SetControllerReference, and whether the reconciler has a scheme);
-- the registration of watches with the manager; cmd/main.go; the generated zz_generated.deepcopy.go;
-- charts, manifests and tests.
pub mod Base
pub mod Result
pub mod Failure
pub mod Api
pub mod Json
pub mod Platform
pub mod Exec
pub mod Client
pub mod Controller
pub mod Demo

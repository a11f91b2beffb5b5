-- ===== src/Lib.antt =====
-- Verification of the BigHead web application (apps/web), the part of the repository that a browser
-- and the Next.js server run.
--
-- The program. A page of the workspace keeps a subscription to /api/realtime. The server's route
-- checks the request, subscribes to the tables of the tenant and writes a frame for every change; the
-- browser's feed drops what it has seen or what is stale and asks for a refresh, which waits for the
-- mutations in flight. Rooms merge what is shown with what the server answers. Everything else goes
-- through routes under app/api, which test the request and ask the upstream API for the tenant of
-- the request, or through the server actions, which call the API and say which pages are stale. The
-- workspace that the pages show is put together from a dozen calls of the API and tested before it is
-- shown. A workflow is checked before it is published. The menus are built from a catalogue of screens.
--
-- The files, with the code that they model (paths under apps/web/src):
--   Common         Boolean tests, lists over native numbers, texts with JavaScript's `trim`, `length`
--                  and truth values, maps and sets; Json: values of `JSON.parse`, and JavaScript's numbers.
--                  Json/Counts says which of them are natural numbers.
--   Realtime/Protocol   lib/realtime-protocol.ts: events, their test, frames, UUIDs. Below it:
--                  Parsing, with Fields, Frames and Uuids prove.
--   Realtime/Feed  lib/realtime-refresh.ts: `connectWorkspaceRealtime`, its closures as one step
--                  function over the inputs of the event source and the timer. Steps, Freshness and
--                  Refreshing prove.
--   Realtime/Stream     app/api/realtime/route.ts: Opening has the guards of `GET`, `reconnectIn` and
--                  the filter; Session has the closures of the stream. Rows is about a row's fields.
--   Mutations/Coordinator   lib/mutation-refresh-coordinator.ts. Waiting and Batches prove.
--   Mutations/Page components/shell/workspace-realtime.tsx: the listeners, with the coordinator and
--                  the feed below them. Safety proves.
--   Messages       lib/message-reconciliation.ts. Splicing, Identity, Ordering and Latest prove.
--   Tasks          lib/task-transitions.ts. Status and Lifecycle prove.
--   Gateway        lib/server-api-client.ts as the routes see it, `trustedOrigin`, `failure` and the
--                  patterns that the routes repeat. TaskRoutes, Approvals, Agents, Rooms, Commercial,
--                  Search and ScreenRules have the handlers of app/api/tasks, approvals, agents, rooms,
--                  commercial, search, analytics and screen-rules; Mutation has
--                  app/api/tasks/[taskId]/transition/route.ts, lib/mutation-result.ts and the answer
--                  as lib/transition-task-client.ts reads it. Guards and Mutation/Answers, with Ids
--                  and Mutation/Requests, prove.
--   Catalog        lib/screen-catalog.ts: Screens has the data, one file for each first part of a
--                  path; Lookup the functions. Navigation is
--                  components/shell/workspace-navigation-config.ts; its Coverage proves.
--   Settings       lib/supabase/config.ts in Supabase, of which Production proves, and
--                  lib/theme-preference.ts in Theme; Auth is lib/supabase/auth-config.ts with
--                  cookie-options.ts, of which Production proves, and its Destinations has
--                  `safeInternalRedirect`, app/auth/callback and app/auth/signout; Places proves.
--   Actions        app/actions/critical-mutations.ts and mutation-error.ts: an action is a tree of the
--                  calls that it makes and of what it does with the answers. Critical and Uploads have
--                  the eleven actions; Order and Orderly prove.
--   Uploads        lib/signed-upload.ts and lib/upload-policy.ts. Attempts proves.
--   Workflow       lib/sprint2-domain-rules.ts: `validateWorkflow`, with its two searches. Tables and
--                  Links read the maps that it builds as relations; Cycles, with its Decides, is about
--                  the search for a cycle, Connection, with its Reached, about the connected nodes,
--                  Fits about the schemas; Joined and Verdict put them together.
--   Workspace      Context is lib/workspace-mode.ts and lib/workspace-request-context.ts. Of
--                  lib/workspace-service.ts, Rows has the views of the API's rows, Answers the errors,
--                  Snapshot the workspace that is built, Transport the calls in their order, Service
--                  the test of the answer, Portal the public links; Server is
--                  lib/server-workspace-service.ts with the transport over plain HTTP.
--                  Service/Accepts, Delivered, Scope and Roles, Portal/States and
--                  Server/Sessions prove.
--
-- State and effects. A closure's variables are the fields of a record, one operation is a function
-- from the state to the state and its outputs (callbacks, timers), and an interleaving is the list of
-- the inputs; nothing is assumed of its order. A handler of a route responds, or asks the upstream
-- and turns its answer, a fault or a value, into the response. Loops are structural, but
-- for the two searches of a workflow: these take fuel, one more than the number of nodes. A call goes
-- deeper only after it has put one more node in its set, so this is enough.
--
-- Arguments of the model, for code that is not in the repository: the parsers of dates and URLs,
-- `encodeURIComponent`, `URLSearchParams`, `localeCompare` (with the laws of an order where a theorem
-- needs them), the conversion of numbers to texts, Supabase's answers on the session, and the
-- upstream API, as the function from a call to its answer where a page makes several, and which of
-- two promises that are rejected comes first. A JavaScript number is a dyadic rational with its sign,
-- an infinity or no number.
-- Headers of a response other than `cache-control: no-store`, and abort signals, are left out.
--
-- Not modelled: the actions of the sign-in and of onboarding, the visibility of rooms, the other
-- domain rules of sprint 2, the middleware, React's rendering, the mock data, the generated API
-- client, the Python services and the database.
pub mod Common
pub mod Json
pub mod Workspace
pub mod Realtime
pub mod Mutations
pub mod Catalog
pub mod Tasks
pub mod Gateway
pub mod Settings
pub mod Workflow
pub mod Actions
pub mod Uploads
pub mod Messages

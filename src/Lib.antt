-- ===== src/Lib.antt =====
-- Ferrum Foundry: the control panel of the Ferrum Edge gateway. A Fastify server (server/) signs its
-- users in and forwards their calls to the gateway's admin API; a browser application (src/) reads
-- and edits the gateway's resources through it. This library models the parts that decide:
--
-- - Throttle: server/auth-throttle.ts, the lockout of an address after failed authentications. The
--   class AuthFailureThrottle is a record of its two tables and the overflow entry, a method a
--   function of that record: recordFailure is record_failure, lockedFor locked_for, promote
--   promote, makeTrustedRoom make_trusted_room, recordSuccess record_success. A JavaScript Map is
--   the list of its entries in insertion order (Prelude/Maps). Date.now() is an argument, one for
--   each reading, in milliseconds. Throttle/Runs has the calls as a sequence.
-- - Pagination: src/api/pagination.ts, the traversal of a paged collection. collectBoundedPages is
--   collect_bounded_pages, which calls a fetch function given to it; a failed call, an abort and
--   each thrown error are results. The loop runs on fuel, as many rounds as the total that the
--   first page reports: a round that goes on has read at least one item, and no more than that.
-- - Shutdown: server/shutdown.ts, the signal handler with its two flags; what it does to the process
--   is a list of effects, and its callbacks are events in any order.
-- - Latches: src/stores/outcomeLatches.ts, the writes whose outcome is unknown, and those in flight.
--   The identity of a stored object is a serial number. acmeOrderInProgress is in src/api/tls.ts.
-- - Policy: src/lib/effectivePolicy.ts (Attachment, Access, Resolve), src/lib/pluginProtocols.ts
--   (Protocols) and the names of src/lib/pluginConfigDefaults.ts (Catalog): which plugins run for a
--   proxy, and which consumers they let in. A plugin's config is a JSON object (Prelude/Json); the
--   order of localeCompare is an argument. The theorems are in Lookup and Attached (the plugins that
--   run), Decisions and Order (a consumer) and Analysis (the whole page).
-- - Health: server/health-summary.ts, the fields of a health body that a namespace-scoped principal
--   receives: project_health_summary over the JSON type. Projection has the loops, Summary what is
--   shown of a body.
-- - ToolPolicy: src/lib/mcpToolPolicy.ts, the entries of policy.tools in the configuration of an
--   mcp_gateway: with_tool_policy writes one, raw_tool_policy and parse_tool_policy read it. The
--   checks of validateToolPolicy are not modelled.
-- - Capabilities: src/lib/capabilities.ts, which surfaces a session is offered for writing:
--   resolve_capability from the facts that were read, with the table of surfaces in Surfaces.
-- - Membership: src/lib/pluginMembership.ts, the create, update and delete of a plugin together with
--   the proxies that list it (Plans, Deletes), from their checks (Checks), their conditional writes
--   (Steps) and what a failed update takes back (Rollback). A plan runs against a world that
--   answers each request and may change in between. Sends is about which writes a plan can send,
--   Ordering about their order.
-- - Registry: server/namespace-registry.ts with the name policy of shared/namespace.js, which
--   requests to the namespace registry pass (authorize_registry_path, authorize_registry_body) and
--   how a scoped list finds the granted names (Scan) and cuts its page (Query). The traversal has
--   the pages left as its fuel, as the code has maxPages. Paths is about the texts of the paths,
--   Confined about the bodies.
-- - Drain: server/upload-drain.ts, the discarding of uploads that a reply no longer needs, as a
--   step function over what happens to a request and to the server.
-- - ProxyPath: server/proxy-path.ts, the path that a proxied request asks the gateway for
--   (proxy_target_path), the routes of a namespace-scoped principal (Routes) and the requests that
--   get the page's shell. Encoded, Pieces and Targets are about the text of a request, from its
--   slashes and its query to the segments that are asked for. decodeURIComponent and the serialization of a URL are arguments.
--
-- The parts meet in the browser: a page collects a collection by Pagination, analyses it by Policy
-- and guards its writes by Latches, and its writes of plugins are the plans of Membership; the server
-- answers it through Throttle, ProxyPath, Registry, Health and Drain until Shutdown.
--
-- Numbers are natural numbers: times, counts, totals and priorities are never negative in the code
-- modelled here, and where the code subtracts, the model adds on the other side or stops at 0 as
-- Math.max does. Not modelled: the network, React, logging, listeners, the random sources of the
-- browser, the caches that only keep a computed value, and the parts of the server and the browser
-- that no module above names.
pub mod Prelude
pub mod Throttle
pub mod Pagination
pub mod Shutdown
pub mod Latches
pub mod Policy
pub mod Health
pub mod ToolPolicy
pub mod Capabilities
pub mod Membership
pub mod Registry
pub mod Drain
pub mod ProxyPath

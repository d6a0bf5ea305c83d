-- ===== src/Lib.antt =====
-- authlane connects the users of a tenant's product to third-party services, keeps their
-- credentials, refreshes them, and tells the tenant by webhooks. This library models the code that
-- decides who may hold a connection, where credentials may go, and what becomes of an event.
--
-- Parts, files and code:
-- Store      the rows of packages/database/src/schema (connections.ts, outbox-events.ts), and
--            updates of a table as functions on its list of rows.
-- Net        URLs as the platform's URL class gives them; and apps/api/src/lib/client-ip.ts,
--            whose resolveClientIp finds the address of a client behind proxies: ClientIp has it.
-- OAuth      packages/shared/src/oauth-endpoints.ts, platform-oauth.ts and the endpoint trust of
--            mcp-discovery.ts. Registry has the tables, Trust isTrustedMcpEndpoint, Endpoints
--            validateOAuthEndpoint, the provider contexts and the scopes, TokenRequest
--            fetchOAuthToken and readLimitedJson, Applications getPlatformOAuthCredentials.
-- Refresh    packages/database/src/jobs/token-refresh.ts: Lease has its statements on the
--            connections, Client the choice of the client's credentials, Job the function
--            refreshToken in its order, with the catch and the finally block. It calls
--            fetchOAuthToken of OAuth, and adds its events to the table that Outbox reads.
-- Outbox     apps/api/src/jobs/outbox.ts and validateWebhookUrl of
--            apps/api/src/lib/webhook-http.ts: Delivery is deliverWebhook, Batch
--            processOutboxBatch, Expiry markExpiredConnections.
-- Tools      packages/shared/src/tool-safety.ts, provider-tool-merge.ts and the tools of
--            mcp-discovery.ts: Safety the policy, Discovered normalizeDiscoveredTools, Merge
--            mergeProviderTools.
-- Connect    apps/api/src/lib/connect-session.ts: the rules of a session, and its services.
-- Flow       apps/api/src/routes/oauth.ts, with oauth-provider-resolution.ts,
--            service-enablement.ts, public-api-base.ts and connection-invalidation.ts of
--            apps/api/src/lib, the servers of packages/database/src/mcp-servers.ts as it reads
--            them, and capabilities.ts and supported-services.ts of packages/shared/src. Settings
--            and Resolution decide what may be connected, Request admits a request; Sessions,
--            ApiKey, Authorize, Callback, Disconnect and Listing are the routes, Client what a
--            callback presents to the provider. The other files prove.
-- Servers    packages/database/src/mcp-servers.ts, what tenants register and what discovery finds
--            of it: Writes has its functions that write, Reads those that read.
-- Discovery  apps/api/src/lib/mcp-discovery-run.ts, with the addresses of mcp-discovery.ts:
--            Address has parseServerUrl and isPrivateAddress, Networks the networks that the
--            latter refuses, Metadata the chain of documents, Run discoverMcpServer.
-- System     the operations of Flow, Outbox and Refresh on one table of connections: Life is the
--            abstract life of a user's connection, with the moves that each operation may make of
--            it, Steps has the operations in sequence, and Runs relates them to the moves.
-- Secrets    packages/crypto/src/secret-vault.ts and packages/database/src/secret-store.ts: Vault
--            is EnvelopeSecretVault, Store is DatabaseSecretStore.
-- Thread     apps/dashboard/src/components/sandbox/agent-thread.ts: the reducer of the sandbox's
--            conversation, with its runs, streamed events, approvals and history.
-- Prelude    shared names, tests, lists, texts and JSON values.
--
-- How the code is modelled: a function that awaits is a function on the state of the tables, with
-- its statements in the order of the code. Other workers show in two ways. In Outbox the list of
-- selected rows is an argument next to the table, so it may be older than the table. In Refresh
-- the environment has two functions, meanwhile and afterwards, which write to the connections
-- between the statements of a run. A call that throws gives none, and a try block ends in a data
-- type with one constructor for its return and one for its exception. The loops are structural
-- recursion over their lists, so no fuel is used; the decimal printing of a number takes the
-- number as its own bound.
--
-- In Flow a route is a function from the request, the state and its surroundings to an Outcome.
-- All work under a tenant's context is one transaction of the database, so a throw leaves the
-- state as it was before the context was entered, but for what others wrote; what others write
-- meanwhile is a function of the environment, as in Refresh. Deleting a connection, or the secret
-- of a verifier, deletes the transactions that refer to it; a credential belongs to one
-- connection, so its deletion leaves the others as they are.
--
-- Parameters, since their code is not in the repository: parsing and printing of JSON, URLs and
-- dates, upper and lower case, the order of texts, HMAC, AES-256-GCM and Base64, the network,
-- fresh identifiers and clocks. In Refresh the secret store is its interface. In Net the list of
-- trusted subnets is asked entry by entry. In Discovery an answer of the network is a function of
-- what is asked, and the match of a challenge's resource_metadata is a parameter. What Secrets
-- relies on of the cipher and of Base64 is the record IsDocumented of Secrets.Opening. JSON
-- numbers are natural, negative or not finite: fractions are left out. A statement of the
-- database is taken to succeed.
--
-- Not modelled: the routes of the dashboard and the control plane, the sandbox's server side and
-- the limits of the middleware, and of the connect flow the parsing of the header that holds a
-- session's token, the job and the discovery that follow a callback, and branding. Left out: the
-- queues, the clients and the user interfaces, which are wiring, transport and rendering.
pub mod Prelude
pub mod Store
pub mod Net
pub mod Thread
pub mod Outbox
pub mod OAuth
pub mod Refresh
pub mod Tools
pub mod Connect
pub mod Secrets
pub mod Servers
pub mod Flow
pub mod Discovery
pub mod System

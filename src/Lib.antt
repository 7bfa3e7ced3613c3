-- ===== src/Lib.antt =====
-- The server side of the web application in web-ui/: an RPC proxy for Solana with API keys, rate limits,
-- billing events and a guard in front of it, and the clients and request helpers of the browser.
--
-- A request first meets the guard (web-ui/src/middleware.ts), which lets it pass with a verified token.
-- The RPC proxy (web-ui/src/app/api/rpc/route.ts) authenticates it by an API key
-- (web-ui/src/lib/api-key.ts), counts it (web-ui/src/lib/rate-limiter.ts), sends each call of its batch
-- to the endpoint that the load balancer chooses, and records its use. Keys are managed by
-- web-ui/src/app/api/keys/route.ts, custom endpoints by web-ui/src/app/api/rpc/endpoints/route.ts, and
-- Stripe reports payments to web-ui/src/app/api/webhooks/stripe/route.ts. In the browser,
-- web-ui/src/lib/api-cache.ts keeps answers, web-ui/src/lib/request-batcher.ts joins requests, and the
-- hooks keep a socket, prefetch pages and know the user of the session. An account begins with the
-- sign-up (web-ui/src/app/api/auth/signup/route.ts) and buys a plan by a checkout session
-- (web-ui/src/app/api/billing/create-checkout-session/route.ts); the dashboard shows its keys and usage.
--
-- Prelude     texts, maps, integers, and actions that may throw: what the files below share
-- Json        the JSON values that the handlers look into
-- Platform    the clock, randomness, hashing, the network and the database, as one interface; its
--             records follow web-ui/prisma/schema.prisma
-- Limiter     `RateLimiter`: `check`, `cleanup`, `getRateLimitHeaders`; Limiter/Usage `checkUsage`
--             and `recordUsage`
-- ApiKey      `ApiKeyManager`: `generateKey`, `isValidFormat`, `create`, `verify`, `list`, `revoke`,
--             `update`
-- Rpc         Rpc/Balancer `LoadBalancer`, Rpc/Post `POST`, Rpc/Health `GET`
-- KeyRoute    the API keys' route: plans and replies; KeyRoute/Handlers `GET`, `POST`, `DELETE`, `PUT`
-- Endpoints   `GET`, `POST` and `DELETE` of the custom endpoints
-- Middleware  `middleware`
-- Webhook     `POST` of Stripe's events
-- ApiCache    `APICache` and `cachedFetch`
-- Batcher     `RequestBatcher`
-- Environment `validateEnv` of web-ui/src/lib/env-validation.ts
-- RpcClient   `RpcClient` and `solanaRpcMethods` of web-ui/src/lib/rpc-client.ts
-- Socket      `useWebSocket` of web-ui/src/hooks/use-websocket.ts as a state machine
-- Stats       `transformMethodsBreakdown` of web-ui/src/app/api/rpc/stats/route.ts; Stats/Series
--             `generateTimeSeriesData`, Stats/Current `GET`
-- Backend     the check of the token and the calls of the service that the routes share;
--             Backend/Health and Backend/Config web-ui/src/app/api/rpc/health/route.ts and
--             web-ui/src/app/api/rpc/config/route.ts
-- Dashboard   `GET` of web-ui/src/app/api/user/dashboard/route.ts
-- Profile     `GET`, `PUT` and `DELETE` of web-ui/src/app/api/user/profile/route.ts
-- Me          `GET` of web-ui/src/app/api/user/me/route.ts
-- PrivySignIn `POST` of web-ui/src/app/api/auth/privy/route.ts
-- SignUp      `POST` and `generateApiKey` of web-ui/src/app/api/auth/signup/route.ts
-- Checkout    `POST` of web-ui/src/app/api/billing/create-checkout-session/route.ts
-- Prefetch    `usePrefetch` and `prefetchDashboardData` of web-ui/src/hooks/use-prefetch.ts
-- Session     `useAuth` of web-ui/src/hooks/use-auth.ts
-- Browser     what the pages share: how their requests end
-- EndpointsPage, KeysPage, SettingsPage, ProfilePage, AnalyticsPage, MonitoringPage
--             the state and the handlers of the pages web-ui/src/app/dashboard/endpoints/page.tsx,
--             web-ui/src/app/dashboard/keys/enhanced-keys.tsx,
--             web-ui/src/app/dashboard/settings/enhanced-settings.tsx,
--             web-ui/src/app/dashboard/profile/page.tsx,
--             web-ui/src/app/dashboard/analytics/optimized-analytics.tsx and
--             web-ui/src/app/dashboard/monitoring/page.tsx
-- Settings    `GET` and `PUT` of web-ui/src/app/api/user/settings/route.ts
-- Provider    `WebSocketProvider` of web-ui/src/providers/websocket-provider.tsx
-- HealthCheck `GET` of web-ui/src/app/api/health/route.ts
-- Tests       runs on concrete data, with a database in memory
--
-- An asynchronous function is a function from the state that it starts in to its outcome and the state
-- that it ends in; an exception is an outcome, and what was done before it stays done. Where a handler
-- waits, an arbitrary change of what it shares with other requests may come in between. Times are
-- milliseconds as natural numbers, and a text is a list of character codes. No definition needs fuel:
-- each loop runs over a list. Laws of the database are hypotheses: ApiKey/Verify `KeyTable`,
-- Limiter/Recording `UsageTable`, Webhook/Tables `BillingTables` and Checkout/Purchase `ShopTables`, and
-- Tests has tables that meet them.
--
-- Not modelled: the other pages and components, the routes that answer fixed data or only read the database,
-- the measuring of performance, the backend service in src/, and the framework's routing.
pub mod Prelude
pub mod Json
pub mod MonitoringPage
pub mod Platform
pub mod Limiter
pub mod ApiKey
pub mod Rpc
pub mod Webhook
pub mod Browser
pub mod EndpointsPage
pub mod KeysPage
pub mod Settings
pub mod SettingsPage
pub mod ProfilePage
pub mod Me
pub mod PrivySignIn
pub mod Middleware
pub mod AnalyticsPage
pub mod ApiCache
pub mod Endpoints
pub mod RpcClient
pub mod Socket
pub mod Checkout
pub mod SignUp
pub mod Dashboard
pub mod Profile
pub mod Backend
pub mod Prefetch
pub mod Session
pub mod Provider
pub mod HealthCheck
pub mod Stats
pub mod Environment
pub mod Batcher
pub mod KeyRoute
pub mod Tests

-- ===== src/Api.antt =====
-- The API server (api/pkg): Flows and Handlers are handler/flow_def.go, Events and Webhook are handler/webhook.go,
-- Auth is auth/auth.go. Routing, Triggers, Access and Tokens are proofs.
pub mod Flows
pub mod Handlers
pub mod Events
pub mod Webhook
pub mod Routing
pub mod Triggers
pub mod Auth
pub mod Access
pub mod Tokens

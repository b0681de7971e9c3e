-- ===== src/Payment.antt =====
-- The economic layer: the spending policy (core/pkg/client/policy/policy.go) and the HTTP client that
-- pays (core/pkg/client/x402.go and x402_httpclient.go).
pub mod Domain
pub mod Policy
pub mod Client

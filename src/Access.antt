-- ===== src/Access.antt =====
-- Who may send requests and under which policy: the configuration (internal/config), the
-- authentication (internal/auth), the policies (internal/policy, cmd/server/main.go) and the HTTP
-- handler (internal/api), with the limits and the ids of requests (internal/ratelimit,
-- internal/middleware).
pub mod Config
pub mod Auth
pub mod Policies
pub mod Handler
pub mod RateLimit
pub mod RequestId

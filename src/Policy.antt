-- ===== src/Policy.antt =====
-- Policies: the gates (`Engine`, apps/api/src/policy/policy-engine.ts) and the choice of the policy
-- that is in force (`Resolver`, policy-resolver.ts, and `policyScope` of policy-config.ts).
pub mod Engine
pub mod Config
pub mod Resolver

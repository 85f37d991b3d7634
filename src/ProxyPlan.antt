-- ===== src/ProxyPlan.antt =====
-- efp_opencode_adapter/proxy_plan.py: the proxies of a profile and the one that each consumer gets. What
-- the source takes from `urllib.parse`, `ipaddress` and `str` is in `Library`.
pub mod Texts
pub mod Library
pub mod Entries
pub mod Build
pub mod Exempts
pub mod Choices
pub mod Tokens
pub mod Secrets
pub mod Direct
mod Tests

-- ===== src/Utils.antt =====
-- internal/shared/utils: subdomains and lists of allowed values.
pub mod Subdomain
pub mod UrlBuilder
mod Tests

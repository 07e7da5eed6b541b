-- ===== src/Crawler.antt =====
-- src/AgentCrawler/src/agent_crawler: the crawler of one page.
pub mod Enums
pub mod Models
pub mod DomainPolicy
pub mod Policy
pub mod ResultCache
pub mod SessionStore
pub mod Adapters
pub mod Runner
pub mod BrowserPages
mod Examples

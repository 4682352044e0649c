-- ===== src/Tests.antt =====
-- Concrete runs of what is proved.
mod Streams
mod Bodies
mod Routed
mod Logs
mod Stores
mod Agents
mod Proxies
mod Records
mod Listings
mod Scrapes

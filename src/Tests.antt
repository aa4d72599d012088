-- ===== src/Tests.antt =====
-- The theorems applied to concrete requests, dictionaries and databases.
pub mod Requests
pub mod Dicts
pub mod Strings
pub mod Keys
pub mod Visits
pub mod Sets
pub mod Lists
pub mod Nodes
pub mod Server
pub mod Patterns
pub mod Ring
pub mod Cluster
pub mod Client
pub mod Config
pub mod Restart

-- ===== src/Metabase.antt =====
-- bi/providers/metabase: the provider that makes collections, cards and dashboards in Metabase from
-- a pack of JSON files.
pub mod Text
pub mod Client
pub mod Polling
pub mod Pack
pub mod Valid
pub mod Settings
pub mod Tags
pub mod Filters
pub mod Metadata
pub mod Database
pub mod Collections
pub mod Cards
pub mod KnownCards
pub mod Layout
pub mod DashcardIds
pub mod Dashboards
pub mod Provision
pub mod Ends
pub mod Provisioned
mod Tests

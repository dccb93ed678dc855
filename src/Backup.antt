-- ===== src/Backup.antt =====
-- The backup hook, verrazzano-backup-hook: a program of its own, which Velero runs to back up and to
-- restore the data of OpenSearch.
pub mod Hook
pub mod Search
pub mod Cluster
pub mod Keystore
pub mod Main
pub mod Ends
pub mod Done
pub mod Unseen

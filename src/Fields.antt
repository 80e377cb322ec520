-- ===== src/Fields.antt =====
-- The names of the form fields, one module for each object of names.
pub mod Additional
pub mod Amount
pub mod Backups
pub mod Cluster
pub mod DataDirectory
pub mod DatabaseServers
pub mod Databases
pub mod Dcs
pub mod Extensions
pub mod Instances
pub mod KernelParameters
pub mod LoadBalancers
pub mod Modal
pub mod Network
pub mod Pools
pub mod PostgresParameters
pub mod Secret
pub mod Settings
pub mod SshKey
pub mod Storage

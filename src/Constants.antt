-- ===== src/Constants.antt =====
-- The codes that the forms and the requests share, one module for each object of codes.
pub mod Authentication
pub mod BackupMethods
pub mod CreationTypes
pub mod DcsTypes
pub mod Providers

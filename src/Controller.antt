-- ===== src/Controller.antt =====
-- internal/controller: the controllers and their registration.
pub mod External
pub mod Connector
pub mod Requests
pub mod Setup

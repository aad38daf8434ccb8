-- ===== src/Controller.antt =====
-- The controllers of internal/controller/infisical.
pub mod Calls
pub mod Conditions
pub mod Policies
pub mod Roles
pub mod Connections
pub mod Optional
pub mod Objects
pub mod Status
pub mod Connection
pub mod Organization
pub mod Environment
pub mod KubernetesAuth
pub mod UniversalAuth
pub mod Watches
pub mod Safety
pub mod Project
pub mod Identity

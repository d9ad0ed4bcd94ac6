-- ===== src/Admin.antt =====
-- What administrators do beside their login: app/services/admin_deletion_service.py.
pub mod Deletion

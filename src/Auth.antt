-- ===== src/Auth.antt =====
-- Accounts: app/services/auth_service.py, with app/models/users.py and the policies of
-- app/schemas/users.py.
pub mod Policy
pub mod Users
pub mod Admin
pub mod Regular
pub mod Password
pub mod Tests

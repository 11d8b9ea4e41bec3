-- ===== src/Accounts.antt =====
-- Who may sign in and with which rights: backend/src/modules/token, auth and b2b-member.
pub mod Tokens
pub mod Auth
pub mod Members
pub mod Machine
pub mod SignOut
pub mod Renewal
pub mod Suspension
pub mod FixedPassword
pub mod Staff

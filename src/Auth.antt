-- ===== src/Auth.antt =====
-- cxAuth/libcx_auth: passwords, accounts, sessions and the attributes that a remote method asks for.
pub mod Reason
pub mod Password
pub mod Account
pub mod Session
pub mod Methods

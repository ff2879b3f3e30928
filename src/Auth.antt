-- ===== src/Auth.antt =====
-- Authentication: AuthService, TokenService and JwtStrategy of modules/auth.
pub mod Store
pub mod Session
pub mod Password
pub mod Register
pub mod Login
pub mod Revoked
pub mod History
pub mod Once
pub mod Race
pub mod Reset
pub mod Access
mod Examples

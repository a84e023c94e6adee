-- ===== src/Portal.antt =====
-- code/portal: the login.
pub mod Stream
pub mod Sts
pub mod Totp

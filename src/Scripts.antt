-- ===== src/Scripts.antt =====
-- The scripts that the authentication server runs (static/extension/person_authentication), and the
-- services of the server that they call.
pub mod Server
pub mod Sample
pub mod Lock
pub mod Otp
pub mod Sms
pub mod Cert

-- ===== src/Jetty.antt =====
-- setup_app/installers/jetty.py: the memory of the applications and the parameters of a service.
pub mod Memory
pub mod Params

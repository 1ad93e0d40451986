-- ===== src/Rdbm.antt =====
-- SQL types and values of LDAP attributes, by setup_app/utils/db_utils.py.
pub mod Types
pub mod Values
pub mod Tables

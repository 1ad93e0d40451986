-- ===== src/Loading.antt =====
-- Loading the entries of LDIF files into the databases: `import_ldif` and `dn_exists` of
-- setup_app/utils/db_utils.py, with `get_document_from_entry` of ldif_utils.py. The tables of MySQL and
-- PostgreSQL are given as SQLAlchemy has reflected them.
pub mod Sql
pub mod Writes
pub mod Spanner
pub mod Attributes
pub mod Document
pub mod Couchbase
pub mod Ldap
pub mod Import
use community_edition_setup.Prelude.{String, Bool, List, Option, none, some, [], ◌∷◌, ◌&&◌}
use community_edition_setup.Prelude.Dict
use community_edition_setup.Prelude.Dict.{Dict, contains}
use community_edition_setup.Rdbm.Values.{Stored}

-- The attributes of an entry.
abbrev pub Entry : Type 0
Entry = Dict (List String)

-- The values of one row; a column without a value is `None`.
abbrev pub Row : Type 0
Row = Dict Stored

-- A table: its columns, each with whether its type is `json_dialects_instance`, and its rows.
pub record Table : Type 0 where
  pub columns : Dict Bool
  pub rows : List Row

abbrev pub Database : Type 0
Database = Dict Table

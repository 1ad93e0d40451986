-- ===== src/Lib.antt =====
-- The setup of the Gluu Server, Community Edition.
--
-- The setup program asks for a configuration (setup_app/utils/properties_utils.py), keeps it in one
-- class `Config` (setup_app/config.py), and lets installers (setup_app/installers) render files and
-- load entries into the chosen databases (setup_app/utils/db_utils.py). What this library models is
-- the decisions between: which database holds which entry, what is stored there for a value, how the
-- memory is shared out, and what a dialogue on the terminal does to the configuration.
--
-- The files, and the code that each is about:
--   Prelude       what the other files share: Python's `str`, `dict`, `int` and `round`, lists, and
--                 results that may be an exception.
--   Config        `Config` and the enumerations of setup_app/static.py. Only the attributes that the
--                 modelled code reads or writes are fields. `install_httpd_option` is the attribute
--                 `installHTTPD`, which the class does not declare.
--   Dn            the key of an entry from its name: `get_key_from` of setup_app/utils/ldif_utils.py,
--                 `get_rootdn` and `get_doc_id_from_dn` of db_utils.py. Dn/Keys has the proofs.
--   Routing       from a key to a group, a bucket and a backend: `get_key_prefix`,
--                 `get_group_for_key`, `get_bucket_for_key`, `get_bucket_for_dn` and
--                 `get_backend_location_for_dn` of db_utils.py, `getMappingType` of
--                 setup_app/utils/setup_utils.py. Proofs are in Routing/Groups (groups and buckets),
--                 Routing/Units (entries below one unit) and Routing/Stores (valid configurations).
--   Rdbm          Rdbm/Types: the SQL type of an attribute (`read_gluu_schema`, `in_subtable`,
--                 `get_attr_syntax`, `get_attr_sql_data_type`); Rdbm/Values: the value that is stored
--                 (`get_rdbm_val`, `get_clean_objcet_class`), with proofs in Typed and Timestamps;
--                 Rdbm/Tables: the tables and the types of their columns (`get_sql_col_type` and
--                 `get_sql_tables` of setup_app/installers/rdbm.py), with proofs in Columns, Extending and
--                 Schemas.
--   Loading       `import_ldif` and `dn_exists` of db_utils.py (Loading/Import), with proofs in
--                 Import/Local. Loading/Sql is the branch for MySQL and PostgreSQL,
--                 with `get_sqlalchObj_for_dn` and `dn_exists_rdbm`; proofs are in
--                 Loading/Sql/Inserting, Growing and Refining. Loading/Spanner is the branch for
--                 Spanner, by the calls of `write_data` that it makes (Loading/Writes).
--                 Loading/Ldap is the branch for LDAP, with proofs in Twice and Keeping.
--                 Loading/Couchbase is the branch for Couchbase with `check_attribute_exists`, by the
--                 texts of the queries, with proofs in Finding. Loading/Document is
--                 `get_document_from_entry` of ldif_utils.py, with proofs in Classes and Kept;
--                 Loading/Attributes is setup_app/utils/attributes.py.
--   Jetty         setup_app/installers/jetty.py. Jetty/Memory: `calculate_aplications_memory` and
--                 `calculate_selected_aplications_memory`, with proofs in Bounds, Overdrawn and Total;
--                 Jetty/Params: `set_jetty_param`, with proofs in Setting.
--   Persistence   `set_persistence_type`, the mapping step of `check_properties` (which Dialogue calls),
--                 `get_backend_list` and `promptForBackendMappings` of properties_utils.py, with
--                 proofs in Kinds, Mappings, Choosing and Repeated.
--   Session       `getDefaultOption`, `check_input_type` and `getPrompt` of properties_utils.py. What
--                 the user types is a list of events that the calls consume.
--   Dialogue      the first part of `promptForProperties` with `get_ip` and `detect_hostname` of
--                 setup_app/utils/setup_utils.py (Dialogue/Questions). Proofs: Terminating and Ending
--                 (every loop ends), Validating and Answers (what is left has passed the checks).
--                 Dialogue/Checking: `check_properties`, with proofs in Filled, Complete and
--                 Checked.
--   Components    `promptForHTTPD` to `promptForPasswurdApiKeystore` and the end of
--                 `promptForProperties`, over Session.
--   Properties    the part of `load_properties` of properties_utils.py that decides which databases are
--                 installed, with proofs in Databases.
--   Fapolicyd     `apply_fapolicyd_rules` of setup_app/utils/setup_utils.py, with proofs in Adding.
--   Scripts       scripts that run in the authentication server, over the services that they call
--                 (Scripts/Server, and Scripts/Otp/Calls). Scripts/Lock:
--                 static/extension/person_authentication/BasicLockAccountExternalAuthenticator.py, with
--                 proofs in Attributes, Account, Attempts, Locking and Series. Scripts/Otp:
--                 OtpExternalAuthenticator.py beside it, in Codes (checking a code), Steps
--                 (`authenticate`) and Preparing (`prepareForStep`), with proofs in Replay,
--                 Enrollments, Accepting, Processing, Coherence, Invariant, Checks and Login.
--                 Scripts/Sms: smpp2FA.py beside it (Scripts/Sms/Steps), with proofs in Passcodes and
--                 Sending. Scripts/Cert: UserCertExternalAuthenticator.py beside it (Scripts/Cert/Steps
--                 and Preparing), with proofs in Valid and Login.
--                 Scripts/Sample is a server in memory for the tests.
-- A file `Tests` below a component runs its definitions on concrete data.
--
-- How the code is represented. An exception is a result `err`; a Python function that ends without
-- `return` gives `none`. `Config` is passed on explicitly, or carried by the dialogue. Dicts are
-- association lists in insertion order. Texts are native, and letters and digits are those of
-- ASCII. Sizes of memory are whole numbers of MB. A quotient of floating-point numbers under
-- `round` is rounded exactly; the numbers are far below 2 ^ 53, where both agree. The loops of
-- `getPrompt` are recursions on the coming events; those of `promptForProperties` and
-- `check_properties` run on fuel, one round for each coming event and one more, which is enough
-- since a round that is repeated has used an event up. Only the loop for the address does not end
-- in the source either where the instance is installed and has none: it runs out of fuel. All
-- other loops are on lists.
--
-- Parameters: `parse_dn` is the parser of names of ldap3, the contents of the JSON files are
-- arguments of `read_gluu_schema`, and the passwords that `getPW` draws are arguments, as is the
-- memory that is computed for the applications. Of the database server, which rows it accepts at a
-- commit and what its LIKE finds are parameters; the tables have the columns that SQLAlchemy
-- reflects, and an attribute of an object that is no column is not stored. For Spanner the tables,
-- the rows that it has and the SHA-256 digest of a text are parameters, and what was written
-- before an exception is not kept. The directory of LDAP and the server of Couchbase are parameters
-- with a state of their own; what a directory finds has texts for values. So are the parser of LDIF
-- files, `json.loads`, `json.dumps`, and the conversion of a time by `strptime` and `strftime`. A
-- number in JSON is kept as it is written.
--
-- The scripts of the authentication server take its services as parameters: the users, the
-- session, the cache, the libraries for HOTP and TOTP, for SMS and for certificates, and the
-- answers of the server for reCAPTCHA. The values of a session keep their types. A missing user
-- name is the empty text, the time of a step is the same for all calls in it, what is kept in the
-- cache as JSON is a record, and the numbers in the file for one-time codes are there.
--
-- Not modelled: files, processes, services, the network and what is printed; the search in the
-- databases; the reflection of tables, which `import_ldif` starts when it needs them; what
-- db_utils.py changes in place for the installers (`set_configuration`, `enable_script`,
-- `delete_dn`, `add_client2script`, `import_schema`); `promptForCasaInstallation`, which asks a
-- server over the network; the statements that make tables and indexes; the installers but for the
-- parts above; the main programs, the terminal forms, the schema tools, the migration scripts, the
-- other scripts that run inside the servers, and the copies of other libraries.
pub mod Prelude
pub mod Config
pub mod Dn
pub mod Routing
pub mod Rdbm
pub mod Jetty
pub mod Persistence
pub mod Session
pub mod Components
pub mod Loading
pub mod Properties
pub mod Fapolicyd
pub mod Dialogue
pub mod Scripts

-- ===== src/Rdbm/Values/Tests.antt =====
-- Types and values of concrete attributes.
use community_edition_setup.Prelude.{◌≡◌, refl, [], ◌∷◌, none, ok, err, false, value_error}
use community_edition_setup.Prelude.Text.{strip, lstrip, rstrip, take, lower, same_codes, is_space}
use community_edition_setup.Prelude.Int.{pos, parse_int}
use community_edition_setup.Prelude.Dict
use community_edition_setup.Rdbm.Types.{
  of_type, Schema, get_attr_sql_data_type, get_attr_syntax, data_type_of, find_syntax,
}
use community_edition_setup.Rdbm.Values.{
  one, int_val, column, value_of_type, branches, first, get_rdbm_val, timestamp, is_truth,
}
use community_edition_setup.Rdbm.Values.Typed.{
  Fits, IsError, get_rdbm_val-Fits, get_rdbm_val-IsError,
}
use community_edition_setup.Rdbm.Values.Timestamps.{sql_time, timestamp_lem, timestamp_drops_digit}

-- Active is a flag, of type `SMALLINT` in MySQL.
abbrev schema : Schema
schema = record {
  gluu_attributes = record { names = "active" ∷ []; multivalued = false; syntax = "1.7" } ∷ [];
  ldap_sql_data_type_mapping = ("1.7", ("mysql", of_type "SMALLINT") ∷ []) ∷ [];
  sql_data_types = ("oxCounter", ("mysql", of_type "INT") ∷ []) ∷ [];
  opendj_attributes_syntax = [];
  sub_tables = [];
}

type_of_active : get_attr_sql_data_type schema "mysql" "active" ≡ ok "SMALLINT"
unfolding get_attr_sql_data_type data_type_of get_attr_syntax find_syntax Dict.get
type_of_active = refl

type_of_counter : get_attr_sql_data_type schema "mysql" "oxCounter" ≡ ok "INT"
unfolding get_attr_sql_data_type data_type_of get_attr_syntax find_syntax Dict.get
type_of_counter = refl

value_of_active : get_rdbm_val schema "mysql" "active" (one "TRUE") none ≡ ok (int_val (pos 1))
unfolding get_rdbm_val get_attr_sql_data_type data_type_of get_attr_syntax find_syntax Dict.get
    value_of_type first branches column is_truth lower same_codes
value_of_active = refl

no_counter : get_rdbm_val schema "mysql" "oxCounter" (one "many") none ≡ err value_error
unfolding get_rdbm_val get_attr_sql_data_type data_type_of get_attr_syntax find_syntax Dict.get
    value_of_type first branches column parse_int rstrip lstrip is_space
no_counter = refl

get_rdbm_val-Fits_example : Fits "SMALLINT" (one "TRUE") (int_val (pos 1))
get_rdbm_val-Fits_example =
    get_rdbm_val-Fits schema "mysql" "active" (one "TRUE") none type_of_active value_of_active

get_rdbm_val-IsError_example : IsError "INT" (one "many") value_error
get_rdbm_val-IsError_example =
    get_rdbm_val-IsError schema "mysql" "oxCounter" (one "many") none type_of_counter no_counter

timestamp_lem_example :
    timestamp false "20200713101500.123Z"
    ≡ sql_time "2" "0" "2" "0" "0" "7" "1" "3" "1" "0" "1" "5" "0" "0" " " ".12" ""
unfolding strip lstrip rstrip take
timestamp_lem_example =
    timestamp_lem "2" "0" "2" "0" "0" "7" "1" "3" "1" "0" "1" "5" "0" "0" false
      "20200713101500.123Z" ".123" refl

last_digit_is_lost : timestamp false "20200713101500.123Z" ≡ timestamp false "20200713101500.129Z"
unfolding strip lstrip rstrip
last_digit_is_lost =
    timestamp_drops_digit "2" "0" "2" "0" "0" "7" "1" "3" "1" "0" "1" "5" "0" "0" false
      "20200713101500.123Z" "20200713101500.129Z" "." "1" "2" "3" "9" refl refl

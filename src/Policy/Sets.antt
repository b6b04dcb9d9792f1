-- ===== src/Policy/Sets.antt =====
-- The four sets of internal/policy/policy.go, and `set`, which reads one from its text.
use Prim.Native.Char.{code}
use Prim.Native.String.{◌++◌}
use pgislet.Base.{String, ◌≡◌, refl, Bool, true, false, ◌||◌, List, ◌==◌, eqb, if◌then◌else◌}
use pgislet.Base

-- strings.FieldsSeq over a text whose only white space is the blank; `word` is the word begun.
fields_seq : String → String → List String
fields_seq word String.[] = if word == "" then Base.[] else Base.◌∷◌ word Base.[]
fields_seq word (String.◌∷◌ c s) = elim (eqb (code c) b' ') [
  | true ↦ (let rest = fields_seq "" s in if word == "" then rest else Base.◌∷◌ word rest)
  | false ↦ fields_seq (word ++ String.◌∷◌ c "") s
]

contains : List String → String → Bool
contains Base.[] v = false
contains (Base.◌∷◌ w ws) v = w == v || contains ws v

-- `set(text)[v]`.
unfoldable pub set : String → String → Bool
unfolding fields_seq contains
set text v = contains (fields_seq "" text) v

abbrev statements_text : String
statements_text =
    "ReturnStmt SelectStmt InsertStmt UpdateStmt DeleteStmt MergeStmt CreateStmt "
    ++ "AlterTableStmt IndexStmt ViewStmt CreateTableAsStmt RefreshMatViewStmt "
    ++ "CreateSeqStmt AlterSeqStmt CompositeTypeStmt CreateEnumStmt AlterEnumStmt "
    ++ "CreateDomainStmt AlterDomainStmt CreateFunctionStmt AlterFunctionStmt "
    ++ "CreateTrigStmt CreatePolicyStmt AlterPolicyStmt DropStmt TruncateStmt "
    ++ "CommentStmt ExplainStmt RenameStmt CallStmt"

-- `statements[v]`: the statement nodes that SQL may hold.
unfoldable pub statements : String → Bool
unfolding set
statements v = set statements_text v

abbrev objects_text : String
objects_text =
    "OBJECT_TABLE OBJECT_INDEX OBJECT_VIEW OBJECT_MATVIEW OBJECT_SEQUENCE "
    ++ "OBJECT_TYPE OBJECT_DOMAIN OBJECT_FUNCTION OBJECT_PROCEDURE OBJECT_ROUTINE "
    ++ "OBJECT_TRIGGER OBJECT_POLICY OBJECT_COLUMN OBJECT_TABCONSTRAINT " ++ "OBJECT_ATTRIBUTE"

-- `objects[v]`: the kinds of objects that are local to a workspace.
unfoldable pub objects : String → Bool
unfolding set
objects v = set objects_text v

abbrev alterations_text : String
alterations_text =
    "AT_AddColumn AT_AddColumnToView AT_ColumnDefault AT_CookedColumnDefault "
    ++ "AT_DropNotNull AT_SetNotNull AT_SetStatistics AT_SetOptions AT_ResetOptions "
    ++ "AT_SetStorage AT_SetCompression AT_DropColumn AT_AddIndex AT_ReAddIndex "
    ++ "AT_AddConstraint AT_ReAddConstraint AT_ReAddDomainConstraint AT_AlterConstraint "
    ++ "AT_ValidateConstraint AT_DropConstraint AT_AlterColumnType "
    ++ "AT_AlterColumnGenericOptions AT_ChangePersistence AT_SetRelOptions "
    ++ "AT_ResetRelOptions AT_ReplaceRelOptions AT_EnableTrig AT_EnableAlwaysTrig "
    ++ "AT_EnableReplicaTrig AT_DisableTrig AT_EnableTrigAll AT_DisableTrigAll "
    ++ "AT_EnableTrigUser AT_DisableTrigUser AT_AddInherit AT_DropInherit AT_AddOf "
    ++ "AT_DropOf AT_ReplicaIdentity AT_EnableRowSecurity AT_DisableRowSecurity "
    ++ "AT_ForceRowSecurity AT_NoForceRowSecurity AT_GenericOptions AT_AttachPartition "
    ++ "AT_DetachPartition AT_AddIdentity AT_SetIdentity AT_DropIdentity "
    ++ "AT_SetExpression AT_DropExpression AT_SetLogged"

-- `alterations[v]`: the subtypes of ALTER TABLE commands.
unfoldable pub alterations : String → Bool
unfolding set
alterations v = set alterations_text v

abbrev builtins_text : String
builtins_text =
    "abs acos acosh asin asinh atan atan2 atanh ceil ceiling cbrt cos cosh cot "
    ++ "degrees div exp factorial floor gcd greatest lcm least ln log log10 mod pi "
    ++ "power radians round scale sign sin sinh sqrt tan tanh trim_scale trunc "
    ++ "width_bucket random setseed min max sum avg count every bool_and bool_or "
    ++ "bit_and bit_or bit_xor array_agg string_agg json_agg jsonb_agg json_object_agg "
    ++ "jsonb_object_agg stddev stddev_pop stddev_samp variance var_pop var_samp "
    ++ "percentile_cont percentile_disc mode rank dense_rank row_number percent_rank "
    ++ "cume_dist ntile lag lead first_value last_value nth_value lower upper length "
    ++ "char_length character_length octet_length bit_length concat concat_ws format "
    ++ "left right lpad rpad ltrim rtrim btrim trim substring substr overlay position "
    ++ "strpos replace reverse repeat split_part starts_with ascii chr initcap "
    ++ "translate md5 sha224 sha256 sha384 sha512 encode decode quote_ident "
    ++ "quote_literal quote_nullable regexp_count regexp_instr regexp_like regexp_match "
    ++ "regexp_matches regexp_replace regexp_split_to_array regexp_split_to_table "
    ++ "regexp_substr to_ascii to_hex to_bin normalize is_normalized to_char to_date "
    ++ "to_number to_timestamp date_part date_trunc date_bin age make_date make_time "
    ++ "make_timestamp make_timestamptz make_interval extract now transaction_timestamp "
    ++ "statement_timestamp clock_timestamp timeofday isfinite justify_days "
    ++ "justify_hours justify_interval timezone overlaps generate_series "
    ++ "generate_subscripts unnest array_append array_prepend array_cat array_dims "
    ++ "array_fill array_length array_lower array_upper array_ndims array_position "
    ++ "array_positions array_remove array_replace array_to_string cardinality "
    ++ "string_to_array string_to_table trim_array array_sample array_shuffle "
    ++ "json_build_array jsonb_build_array json_build_object jsonb_build_object "
    ++ "json_object jsonb_object to_json to_jsonb row_to_json array_to_json "
    ++ "json_array_length jsonb_array_length json_each jsonb_each json_each_text "
    ++ "jsonb_each_text json_extract_path jsonb_extract_path json_extract_path_text "
    ++ "jsonb_extract_path_text json_object_keys jsonb_object_keys json_populate_record "
    ++ "jsonb_populate_record json_populate_recordset jsonb_populate_recordset "
    ++ "json_to_record jsonb_to_record json_to_recordset jsonb_to_recordset "
    ++ "json_array_elements jsonb_array_elements json_array_elements_text "
    ++ "jsonb_array_elements_text json_strip_nulls jsonb_strip_nulls json_typeof "
    ++ "jsonb_typeof jsonb_set jsonb_set_lax jsonb_insert jsonb_pretty "
    ++ "jsonb_path_exists jsonb_path_match jsonb_path_query jsonb_path_query_array "
    ++ "jsonb_path_query_first jsonb_path_exists_tz jsonb_path_match_tz "
    ++ "jsonb_path_query_tz jsonb_path_query_array_tz jsonb_path_query_first_tz nextval "
    ++ "currval lastval setval gen_random_uuid uuidv4 uuidv7 uuid_extract_timestamp "
    ++ "uuid_extract_version pg_typeof pg_column_size pg_size_pretty pg_backend_pid "
    ++ "pg_sleep pg_sleep_for pg_sleep_until current_database current_schema "
    ++ "current_schemas current_setting version obj_description col_description "
    ++ "has_schema_privilege has_table_privilege has_function_privilege "
    ++ "has_database_privilege has_sequence_privilege has_type_privilege "
    ++ "has_column_privilege has_any_column_privilege to_regclass to_regtype to_regproc "
    ++ "to_regprocedure to_regnamespace to_regrole pg_get_serial_sequence pg_get_expr "
    ++ "pg_get_viewdef pg_get_constraintdef pg_get_indexdef pg_get_functiondef "
    ++ "pg_get_function_arguments pg_get_function_result pg_table_size pg_relation_size "
    ++ "pg_total_relation_size pg_indexes_size pg_is_in_recovery inet_client_addr "
    ++ "inet_client_port inet_server_addr inet_server_port"

-- `builtins[v]`: the routines of pg_catalog that SQL may call.
unfoldable pub builtins : String → Bool
unfolding set
builtins v = set builtins_text v

call_allowed : builtins "lower" ≡ true
unfolding builtins
call_allowed = refl

call_refused : builtins "pg_read_file" ≡ false
unfolding builtins
call_refused = refl

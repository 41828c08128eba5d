-- ===== src/Connect/Info/Table.antt =====
-- The table `entries` of SQLGetInfo in src/connect.c. The macros of the ODBC headers stand by their
-- names.
use frostlake_odbc.Base.{ℕ, Option, none, some, List, [], ◌∷◌, ◌++◌, Bytes, codes}

-- `numeric_value`: a number, or the bitwise or of macros.
pub data Numeric : Type 0 where
  literal : ℕ → Numeric
  flags : List Bytes → Numeric

-- `info_width`, with the value that it goes with. A string that is NULL is resolved later.
pub data InfoValue : Type 0 where
  info_string : Option Bytes → InfoValue
  info_u16 info_u32 : Numeric → InfoValue

pub record InfoEntry : Type 0 where
  pub info_type : Bytes
  pub value : InfoValue

unfoldable pub entry : Bytes → InfoValue → InfoEntry
entry info_type value = record { info_type = info_type; value = value }

unfoldable pub string_entries : List InfoEntry
string_entries =
    entry (codes "SQL_DRIVER_NAME") (info_string (some (codes "libfrostlakeodbc.so")))
    ∷ entry (codes "SQL_DRIVER_VER") (info_string (some (codes "01.02.0001")))
    ∷ entry (codes "SQL_DRIVER_ODBC_VER") (info_string (some (codes "03.51")))
    ∷ entry (codes "SQL_DBMS_NAME") (info_string (some (codes "Frostlake")))
    ∷ entry (codes "SQL_DBMS_VER") (info_string (some (codes "01.00.0000")))
    ∷ entry (codes "SQL_IDENTIFIER_QUOTE_CHAR") (info_string (some (codes "\"")))
    ∷ entry (codes "SQL_SEARCH_PATTERN_ESCAPE") (info_string (some (codes "\\")))
    ∷ entry (codes "SQL_CATALOG_NAME_SEPARATOR") (info_string (some (codes ".")))
    ∷ entry (codes "SQL_CATALOG_TERM") (info_string (some (codes "database")))
    ∷ entry (codes "SQL_SCHEMA_TERM") (info_string (some (codes "schema")))
    ∷ entry (codes "SQL_TABLE_TERM") (info_string (some (codes "table")))
    ∷ entry (codes "SQL_PROCEDURE_TERM") (info_string (some (codes "procedure")))
    ∷ entry (codes "SQL_CATALOG_NAME") (info_string (some (codes "Y")))
    ∷ entry (codes "SQL_ACCESSIBLE_TABLES") (info_string (some (codes "Y")))
    ∷ entry (codes "SQL_ACCESSIBLE_PROCEDURES") (info_string (some (codes "Y")))
    ∷ entry (codes "SQL_COLUMN_ALIAS") (info_string (some (codes "Y")))
    ∷ entry (codes "SQL_EXPRESSIONS_IN_ORDERBY") (info_string (some (codes "Y")))
    ∷ entry (codes "SQL_LIKE_ESCAPE_CLAUSE") (info_string (some (codes "Y")))
    ∷ entry (codes "SQL_ORDER_BY_COLUMNS_IN_SELECT") (info_string (some (codes "N")))
    ∷ entry (codes "SQL_OUTER_JOINS") (info_string (some (codes "Y")))
    ∷ entry (codes "SQL_PROCEDURES") (info_string (some (codes "Y")))
    ∷ entry (codes "SQL_ROW_UPDATES") (info_string (some (codes "N")))
    ∷ entry (codes "SQL_KEYWORDS") (info_string (some (codes "")))
    ∷ entry (codes "SQL_SPECIAL_CHARACTERS") (info_string (some (codes "")))
    ∷ entry (codes "SQL_MAX_ROW_SIZE_INCLUDES_LONG") (info_string (some (codes "Y")))
    ∷ entry (codes "SQL_MULT_RESULT_SETS") (info_string (some (codes "Y")))
    ∷ entry (codes "SQL_MULTIPLE_ACTIVE_TXN") (info_string (some (codes "Y")))
    ∷ entry (codes "SQL_NEED_LONG_DATA_LEN") (info_string (some (codes "N")))
    ∷ entry (codes "SQL_DESCRIBE_PARAMETER") (info_string (some (codes "N")))
    ∷ entry (codes "SQL_DATA_SOURCE_READ_ONLY") (info_string (some (codes "N")))
    ∷ entry (codes "SQL_DATABASE_NAME") (info_string none)
    ∷ entry (codes "SQL_DATA_SOURCE_NAME") (info_string none)
    ∷ entry (codes "SQL_SERVER_NAME") (info_string none)
    ∷ entry (codes "SQL_USER_NAME") (info_string (some (codes "")))
    ∷ []

unfoldable pub u16_entries : List InfoEntry
u16_entries =
    entry (codes "SQL_TXN_CAPABLE") (info_u16 (flags (codes "SQL_TC_ALL" ∷ [])))
    ∷ entry (codes "SQL_CURSOR_COMMIT_BEHAVIOR") (info_u16 (flags (codes "SQL_CB_PRESERVE" ∷ [])))
    ∷ entry (codes "SQL_CURSOR_ROLLBACK_BEHAVIOR") (info_u16 (flags (codes "SQL_CB_PRESERVE" ∷ [])))
    ∷ entry (codes "SQL_CORRELATION_NAME") (info_u16 (flags (codes "SQL_CN_ANY" ∷ [])))
    ∷ entry (codes "SQL_NON_NULLABLE_COLUMNS") (info_u16 (flags (codes "SQL_NNC_NON_NULL" ∷ [])))
    ∷ entry (codes "SQL_GROUP_BY") (info_u16 (flags (codes "SQL_GB_GROUP_BY_CONTAINS_SELECT" ∷ [])))
    ∷ entry (codes "SQL_IDENTIFIER_CASE") (info_u16 (flags (codes "SQL_IC_UPPER" ∷ [])))
    ∷ entry (codes "SQL_QUOTED_IDENTIFIER_CASE") (info_u16 (flags (codes "SQL_IC_SENSITIVE" ∷ [])))
    ∷ entry (codes "SQL_CONCAT_NULL_BEHAVIOR") (info_u16 (flags (codes "SQL_CB_NULL" ∷ [])))
    ∷ entry (codes "SQL_NULL_COLLATION") (info_u16 (flags (codes "SQL_NC_HIGH" ∷ [])))
    ∷ entry (codes "SQL_ACTIVE_ENVIRONMENTS") (info_u16 (literal 0))
    ∷ entry (codes "SQL_MAX_CONCURRENT_ACTIVITIES") (info_u16 (literal 0))
    ∷ entry (codes "SQL_MAX_DRIVER_CONNECTIONS") (info_u16 (literal 0))
    ∷ entry (codes "SQL_MAX_COLUMN_NAME_LEN") (info_u16 (literal 255))
    ∷ entry (codes "SQL_MAX_TABLE_NAME_LEN") (info_u16 (literal 255))
    ∷ entry (codes "SQL_MAX_SCHEMA_NAME_LEN") (info_u16 (literal 255))
    ∷ entry (codes "SQL_MAX_CATALOG_NAME_LEN") (info_u16 (literal 255))
    ∷ entry (codes "SQL_MAX_IDENTIFIER_LEN") (info_u16 (literal 255))
    ∷ entry (codes "SQL_MAX_COLUMNS_IN_GROUP_BY") (info_u16 (literal 0))
    ∷ entry (codes "SQL_MAX_COLUMNS_IN_ORDER_BY") (info_u16 (literal 0))
    ∷ entry (codes "SQL_MAX_COLUMNS_IN_SELECT") (info_u16 (literal 0))
    ∷ entry (codes "SQL_MAX_COLUMNS_IN_TABLE") (info_u16 (literal 0))
    ∷ entry (codes "SQL_MAX_USER_NAME_LEN") (info_u16 (literal 0))
    ∷ entry (codes "SQL_FILE_USAGE") (info_u16 (flags (codes "SQL_FILE_NOT_SUPPORTED" ∷ [])))
    ∷ []

-- The rest, in the order of the table.
unfoldable pub other_entries : List InfoEntry
other_entries =
    entry (codes "SQL_ODBC_INTERFACE_CONFORMANCE") (info_u32 (flags (codes "SQL_OIC_CORE" ∷ [])))
    ∷ entry (codes "SQL_SQL_CONFORMANCE") (info_u32 (flags (codes "SQL_SC_SQL92_ENTRY" ∷ [])))
    ∷ entry (codes "SQL_DEFAULT_TXN_ISOLATION")
        (info_u32 (flags (codes "SQL_TXN_READ_COMMITTED" ∷ [])))
    ∷ entry (codes "SQL_TXN_ISOLATION_OPTION")
        (info_u32 (flags (codes "SQL_TXN_READ_COMMITTED" ∷ [])))
    ∷ entry (codes "SQL_GETDATA_EXTENSIONS") (
        info_u32 (
          flags (codes "SQL_GD_ANY_COLUMN" ∷ codes "SQL_GD_ANY_ORDER" ∷ codes "SQL_GD_BOUND" ∷ [])))
    ∷ entry (codes "SQL_SCHEMA_USAGE") (
        info_u32 (
          flags (
            codes "SQL_SU_DML_STATEMENTS"
            ∷ codes "SQL_SU_TABLE_DEFINITION"
            ∷ codes "SQL_SU_PRIVILEGE_DEFINITION"
            ∷ [])))
    ∷ entry (codes "SQL_CATALOG_USAGE")
        (info_u32 (flags (codes "SQL_CU_DML_STATEMENTS" ∷ codes "SQL_CU_TABLE_DEFINITION" ∷ [])))
    ∷ entry (codes "SQL_OJ_CAPABILITIES") (
        info_u32 (
          flags (
            codes "SQL_OJ_LEFT"
            ∷ codes "SQL_OJ_RIGHT"
            ∷ codes "SQL_OJ_FULL"
            ∷ codes "SQL_OJ_NESTED"
            ∷ codes "SQL_OJ_ALL_COMPARISON_OPS"
            ∷ [])))
    ∷ entry (codes "SQL_SCROLL_OPTIONS") (info_u32 (flags (codes "SQL_SO_FORWARD_ONLY" ∷ [])))
    ∷ entry (codes "SQL_CURSOR_SENSITIVITY") (info_u32 (flags (codes "SQL_INSENSITIVE" ∷ [])))
    ∷ entry (codes "SQL_BOOKMARK_PERSISTENCE") (info_u32 (literal 0))
    ∷ entry (codes "SQL_MAX_ROW_SIZE") (info_u32 (literal 0))
    ∷ entry (codes "SQL_MAX_STATEMENT_LEN") (info_u32 (literal 0))
    ∷ entry (codes "SQL_MAX_BINARY_LITERAL_LEN") (info_u32 (literal 0))
    ∷ entry (codes "SQL_MAX_CHAR_LITERAL_LEN") (info_u32 (literal 0))
    ∷ entry (codes "SQL_MAX_INDEX_SIZE") (info_u32 (literal 0))
    ∷ entry (codes "SQL_MAX_TABLES_IN_SELECT") (info_u16 (literal 0))
    ∷ entry (codes "SQL_BATCH_ROW_COUNT") (info_u32 (literal 0))
    ∷ entry (codes "SQL_BATCH_SUPPORT") (info_u32 (literal 0))
    ∷ entry (codes "SQL_PARAM_ARRAY_ROW_COUNTS") (info_u32 (flags (codes "SQL_PARC_NO_BATCH" ∷ [])))
    ∷ entry (codes "SQL_PARAM_ARRAY_SELECTS") (info_u32 (flags (codes "SQL_PAS_NO_SELECT" ∷ [])))
    ∷ entry (codes "SQL_DTC_TRANSITION_COST") (info_u32 (literal 0))
    ∷ entry (codes "SQL_ASYNC_MODE") (info_u32 (flags (codes "SQL_AM_NONE" ∷ [])))
    ∷ entry (codes "SQL_ALTER_TABLE")
        (info_u32 (flags (codes "SQL_AT_ADD_COLUMN" ∷ codes "SQL_AT_DROP_COLUMN" ∷ [])))
    ∷ entry (codes "SQL_UNION")
        (info_u32 (flags (codes "SQL_U_UNION" ∷ codes "SQL_U_UNION_ALL" ∷ [])))
    ∷ entry (codes "SQL_SUBQUERIES") (
        info_u32 (
          flags (
            codes "SQL_SQ_COMPARISON"
            ∷ codes "SQL_SQ_EXISTS"
            ∷ codes "SQL_SQ_IN"
            ∷ codes "SQL_SQ_QUANTIFIED"
            ∷ codes "SQL_SQ_CORRELATED_SUBQUERIES"
            ∷ [])))
    ∷ entry (codes "SQL_AGGREGATE_FUNCTIONS") (
        info_u32 (
          flags (
            codes "SQL_AF_ALL"
            ∷ codes "SQL_AF_AVG"
            ∷ codes "SQL_AF_COUNT"
            ∷ codes "SQL_AF_DISTINCT"
            ∷ codes "SQL_AF_MAX"
            ∷ codes "SQL_AF_MIN"
            ∷ codes "SQL_AF_SUM"
            ∷ [])))
    ∷ entry (codes "SQL_NUMERIC_FUNCTIONS") (info_u32 (literal 0))
    ∷ entry (codes "SQL_STRING_FUNCTIONS") (info_u32 (literal 0))
    ∷ entry (codes "SQL_TIMEDATE_FUNCTIONS") (info_u32 (literal 0))
    ∷ entry (codes "SQL_SYSTEM_FUNCTIONS") (info_u32 (literal 0))
    ∷ entry (codes "SQL_CONVERT_FUNCTIONS") (info_u32 (literal 0))
    ∷ entry (codes "SQL_POS_OPERATIONS") (info_u32 (literal 0))
    ∷ entry (codes "SQL_STATIC_CURSOR_ATTRIBUTES1") (info_u32 (flags (codes "SQL_CA1_NEXT" ∷ [])))
    ∷ entry (codes "SQL_STATIC_CURSOR_ATTRIBUTES2") (info_u32 (literal 0))
    ∷ entry (codes "SQL_FORWARD_ONLY_CURSOR_ATTRIBUTES1")
        (info_u32 (flags (codes "SQL_CA1_NEXT" ∷ [])))
    ∷ entry (codes "SQL_FORWARD_ONLY_CURSOR_ATTRIBUTES2") (info_u32 (literal 0))
    ∷ entry (codes "SQL_KEYSET_CURSOR_ATTRIBUTES1") (info_u32 (literal 0))
    ∷ entry (codes "SQL_KEYSET_CURSOR_ATTRIBUTES2") (info_u32 (literal 0))
    ∷ entry (codes "SQL_DYNAMIC_CURSOR_ATTRIBUTES1") (info_u32 (literal 0))
    ∷ entry (codes "SQL_DYNAMIC_CURSOR_ATTRIBUTES2") (info_u32 (literal 0))
    ∷ entry (codes "SQL_INFO_SCHEMA_VIEWS") (
        info_u32
          (flags (codes "SQL_ISV_TABLES" ∷ codes "SQL_ISV_COLUMNS" ∷ codes "SQL_ISV_VIEWS" ∷ [])))
    ∷ entry (codes "SQL_SQL92_PREDICATES") (info_u32 (literal 0))
    ∷ entry (codes "SQL_SQL92_RELATIONAL_JOIN_OPERATORS") (info_u32 (literal 0))
    ∷ entry (codes "SQL_SQL92_VALUE_EXPRESSIONS") (info_u32 (literal 0))
    ∷ entry (codes "SQL_DATETIME_LITERALS") (info_u32 (literal 0))
    ∷ entry (codes "SQL_CONVERT_VARCHAR") (info_u32 (literal 0))
    ∷ entry (codes "SQL_CREATE_TABLE") (info_u32 (flags (codes "SQL_CT_CREATE_TABLE" ∷ [])))
    ∷ entry (codes "SQL_CREATE_VIEW") (info_u32 (flags (codes "SQL_CV_CREATE_VIEW" ∷ [])))
    ∷ entry (codes "SQL_DROP_TABLE") (info_u32 (flags (codes "SQL_DT_DROP_TABLE" ∷ [])))
    ∷ entry (codes "SQL_DROP_VIEW") (info_u32 (flags (codes "SQL_DV_DROP_VIEW" ∷ [])))
    ∷ entry (codes "SQL_INSERT_STATEMENT") (
        info_u32 (
          flags (
            codes "SQL_IS_INSERT_LITERALS"
            ∷ codes "SQL_IS_INSERT_SEARCHED"
            ∷ codes "SQL_IS_SELECT_INTO"
            ∷ [])))
    ∷ []

unfoldable pub info_entries : List InfoEntry
info_entries = string_entries ++ (u16_entries ++ other_entries)

-- ===== src/Catalog/Columns/Meaning.antt =====
-- What each column of the set that SQLColumns of src/catalog.c makes stands for, by its header.
use frostlake_odbc.Base.{
  ℕ, ◌+◌, ◌≡◌, refl, Option, none, some, List, [], ◌∷◌, map, if◌then◌else◌, Bytes, codes, equal,
}
use frostlake_odbc.Base.Int.{pos}
use frostlake_odbc.Response.Model.{SqlType, ResultSet}
use frostlake_odbc.Response.Decode.{or_empty, strtol}
use frostlake_odbc.Statement.Field.{type_code}
use frostlake_odbc.Catalog.Synth.{Entry, of_text, of_int, of_null}
use frostlake_odbc.Catalog.Columns.{
  columns_columns, long_or_zero, int_if_given, radix, verbose_type, datetime_sub, type_name_or,
  position_or, named_text, facts, column_entries,
}
use frostlake_odbc.Catalog.Tables.{text_or_null}

-- A text of the listing as it is, with a text in its place, or as a number; the type, its ODBC 3
-- code and its subcode; the size; the radix; whether NULL is allowed, as a number and as a word;
-- the position in the table; always NULL.
pub data Source : Type 0 where
  passed : Bytes → Source
  passed_or : Bytes → Bytes → Source
  numbered : Bytes → Source
  type_number type_family type_subcode size radix_of_type null_number null_word position
        always_null :
      Source

unfoldable pub source_text : Option Bytes → Entry
source_text none = of_null
source_text (some text) = of_text text

unfoldable pub source_text_or : Option Bytes → Bytes → Entry
source_text_or none fallback = of_text fallback
source_text_or (some text) fallback = of_text text

unfoldable pub source_number : Option Bytes → Entry
source_number none = of_null
source_number (some text) = of_int (strtol text)

unfoldable pub source_position : Option Bytes → ℕ → Entry
source_position none i = of_int (pos (i + 1))
source_position (some text) i = of_int (strtol text)

unfoldable pub meaning : ResultSet → ℕ → Source → Entry
meaning listed i (passed name) = source_text (named_text listed i name)
meaning listed i (passed_or name fallback) = source_text_or (named_text listed i name) fallback
meaning listed i (numbered name) = source_number (named_text listed i name)
meaning listed i type_number = of_int (type_code (facts listed i).sql_type)
meaning listed i type_family = of_int (verbose_type (facts listed i).sql_type)
meaning listed i type_subcode = datetime_sub (facts listed i).sql_type
meaning listed i size = of_int (facts listed i).size
meaning listed i radix_of_type = of_int (radix (facts listed i).sql_type)
meaning listed i null_number = of_int (pos (if (facts listed i).nullable then 1 else 0))
meaning listed i null_word = of_text (if (facts listed i).nullable then codes "YES" else codes "NO")
meaning listed i position = source_position (named_text listed i (codes "ordinal_position")) i
meaning listed i always_null = of_null

-- By header, in the groups that ODBC describes: the names, the type, the sizes, the rest.
abbrev pub sources : List (Bytes × Source)
sources =
    (codes "TABLE_CAT", passed (codes "table_catalog"))
    ∷ (codes "TABLE_SCHEM", passed (codes "table_schema"))
    ∷ (codes "TABLE_NAME", passed_or (codes "table_name") [])
    ∷ (codes "COLUMN_NAME", passed_or (codes "column_name") [])
    ∷ (codes "ORDINAL_POSITION", position)
    ∷ (codes "TYPE_NAME", passed_or (codes "data_type") (codes "VARCHAR"))
    ∷ (codes "DATA_TYPE", type_number)
    ∷ (codes "SQL_DATA_TYPE", type_family)
    ∷ (codes "SQL_DATETIME_SUB", type_subcode)
    ∷ (codes "COLUMN_SIZE", size)
    ∷ (codes "BUFFER_LENGTH", size)
    ∷ (codes "CHAR_OCTET_LENGTH", size)
    ∷ (codes "DECIMAL_DIGITS", numbered (codes "numeric_scale"))
    ∷ (codes "NUM_PREC_RADIX", radix_of_type)
    ∷ (codes "NULLABLE", null_number)
    ∷ (codes "IS_NULLABLE", null_word)
    ∷ (codes "COLUMN_DEF", passed (codes "column_default"))
    ∷ (codes "REMARKS", always_null)
    ∷ []

unfoldable pub source_of : List (Bytes × Source) → Bytes → Source
source_of [] header = always_null
source_of ((name, source) ∷ more) header =
    let later = source_of more header in if equal name header then source else later

-- What stands under a header in row `i`, from row `i` of the listing.
unfoldable pub shown : ResultSet → ℕ → Bytes × SqlType → Entry
shown listed i header = meaning listed i (source_of sources header.0)

passed-text : (o : Option Bytes) → text_or_null o ≡ source_text o
unfolding text_or_null source_text
passed-text none = refl
passed-text (some text) = refl

passed_or-empty : (o : Option Bytes) → of_text (or_empty o) ≡ source_text_or o []
unfolding or_empty source_text_or
passed_or-empty none = refl
passed_or-empty (some text) = refl

passed_or-type : (o : Option Bytes) → of_text (type_name_or o) ≡ source_text_or o (codes "VARCHAR")
unfolding type_name_or source_text_or
passed_or-type none = refl
passed_or-type (some text) = refl

numbered-int : (o : Option Bytes) → int_if_given o (long_or_zero o) ≡ source_number o
unfolding int_if_given long_or_zero source_number
numbered-int none = refl
numbered-int (some text) = refl

position-int : (o : Option Bytes) (i : ℕ) → of_int (position_or o i) ≡ source_position o i
unfolding position_or source_position
position-int none i = refl
position-int (some text) i = refl

pub column_entries-shown :
    (listed : ResultSet) (i : ℕ)
    → column_entries listed i i (facts listed i) ≡ map (shown listed i) columns_columns
unfolding column_entries shown meaning source_of equal
column_entries-shown listed i =
    rw
      (
        passed-text (named_text listed i (codes "table_catalog")),
        passed-text (named_text listed i (codes "table_schema")),
        passed-text (named_text listed i (codes "column_default")),
        passed_or-empty (named_text listed i (codes "table_name")),
        passed_or-empty (named_text listed i (codes "column_name")),
        passed_or-type (named_text listed i (codes "data_type")),
        numbered-int (named_text listed i (codes "numeric_scale")),
        position-int (named_text listed i (codes "ordinal_position")) i,
      )
      refl

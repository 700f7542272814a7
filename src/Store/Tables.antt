-- ===== src/Store/Tables.antt =====
-- What PostgreSQL keeps of its tables' definitions, and the statements of backend/src/db/migrator.ts
-- that change them. A column is its name and the text of its definition.
use event_relay.Base.{
  Bool, ◌&&◌, if◌then◌else◌, Option, none, some, List, [], ◌∷◌, ◌++◌, any, all, find, update, Text,
  text_eq,
}

pub record Column : Type 0 where
  pub name : Text
  pub definition : Text

pub record Table : Type 0 where
  pub name : Text
  pub columns : List Column

pub record Index : Type 0 where
  pub name : Text
  pub table : Text
  pub columns : List Text

pub record Comment : Type 0 where
  pub table : Text
  pub column : Text
  pub text : Text

pub record Catalog : Type 0 where
  pub extensions : List Text
  pub tables : List Table
  pub indexes : List Index
  pub comments : List Comment

-- `create_table` also has the tables that its columns refer to.
pub data Statement : Type 0 where
  create_extension : Text → Statement
  create_table : Table → List Text → Statement
  create_index : Index → Statement
  add_columns : Text → List Column → Statement
  comment_on : Comment → Statement

abbrev pub has_text : Text → List Text → Bool
has_text t ts = any (λ s. text_eq s t) ts

abbrev pub has_column : Text → List Column → Bool
has_column name columns = any (λ (c : Column). text_eq c.name name) columns

abbrev pub is_table : Text → Table → Bool
is_table name t = text_eq t.name name

abbrev pub has_table : Text → List Table → Bool
has_table name tables = any (is_table name) tables

abbrev pub has_index : Text → List Index → Bool
has_index name indexes = any (λ (i : Index). text_eq i.name name) indexes

-- `ADD COLUMN IF NOT EXISTS …` for each column.
unfoldable pub with_columns : List Column → List Column → List Column
with_columns [] columns = columns
with_columns (c ∷ cs) columns =
    with_columns cs (if has_column c.name columns then columns else columns ++ c ∷ [])

abbrev pub widened : List Column → Table → Table
widened cs t = record t { columns = with_columns cs t.columns }

-- The columns of a table, none if it does not exist.
abbrev pub columns_of : Option Table → List Column
columns_of none = []
columns_of (some t) = t.columns

abbrev pub columns_at : Text → Catalog → List Column
columns_at name c = columns_of (find (is_table name) c.tables)

abbrev pub same_place : Comment → Comment → Bool
same_place k m = text_eq m.table k.table && text_eq m.column k.column

-- `COMMENT ON COLUMN` replaces the comment that the column had.
abbrev pub with_comment : Comment → List Comment → List Comment
with_comment k comments =
    if any (same_place k) comments
    then update (same_place k) (λ m. record m { text = k.text }) comments
    else comments ++ k ∷ []

-- One statement; `none` is an error: a table or a column that it names does not exist.
unfoldable pub run_statement : Statement → Catalog → Option Catalog
unfolding with_columns
run_statement (create_extension name) c =
    some (
      if has_text name c.extensions then c else record c { extensions = c.extensions ++ name ∷ [] })
run_statement (create_table t references) c =
    if has_table t.name c.tables
    then some c
    else if all (λ r. has_table r c.tables) references
    then some (record c { tables = c.tables ++ t ∷ [] })
    else none
run_statement (create_index i) c =
    if all (λ name. has_column name (columns_at i.table c)) i.columns
    then some (if has_index i.name c.indexes then c else record c { indexes = c.indexes ++ i ∷ [] })
    else none
run_statement (add_columns table cs) c =
    if has_table table c.tables
    then some (record c { tables = update (is_table table) (widened cs) c.tables })
    else none
run_statement (comment_on k) c =
    if has_column k.column (columns_at k.table c)
    then some (record c { comments = with_comment k c.comments })
    else none

abbrev pub then_run : Option Catalog → (Catalog → Option Catalog) → Option Catalog
then_run none f = none
then_run (some c) f = f c

-- The statements of one text, in order, up to the first error.
unfoldable pub run_sql : List Statement → Catalog → Option Catalog
unfolding run_statement
run_sql [] c = some c
run_sql (s ∷ rest) c = then_run (run_statement s c) (run_sql rest)

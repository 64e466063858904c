-- ===== src/Sql/Ast.antt =====
-- The AST nodes of queryx/sql/ast.py.
use query_x_engine.Common.{Bool, Option, none, some, List, [], ◌∷◌, ◌++◌}
use query_x_engine.Common.Int.{ℤ}
use query_x_engine.Storage.Row.{ColumnType, Text, Value}
use query_x_engine.Sql.Tokens.{TokenType}

pub record Column : Type 0 where
  pub name : Text
  pub table : Option Text

-- `if self.table` is false for an empty string too
unfoldable pub key_of : Option Text → Text → Text
key_of none name = name
key_of (some []) name = name
key_of (some (c ∷ cs)) name = (c ∷ cs) ++ (46 ∷ name)

unfoldable pub key : Column → Text
key c = key_of c.table c.name

pub data AggregateFunc : Type 0 where
  count_func sum_func avg_func min_func max_func : AggregateFunc

pub data Expr : Type 0 where
  column : Column → Expr
  literal : Value → ColumnType → Expr
  star : Expr
  aggregate : AggregateFunc → Expr → Expr
  comparison : TokenType → Expr → Expr → Expr
  and_node : Expr → Expr → Expr
  or_node : Expr → Expr → Expr
  not_node : Expr → Expr

pub record ColumnDef : Type 0 where
  pub name : Text
  pub type : ColumnType

pub record OrderItem : Type 0 where
  pub column : Text
  pub descending : Bool

pub record Assignment : Type 0 where
  pub column : Text
  pub value : Expr

pub record Join : Type 0 where
  pub table : Text
  pub alias : Option Text
  pub condition : Expr

pub record Select : Type 0 where
  pub table : Text
  pub projections : List Expr
  pub distinct : Bool
  pub where_expr : Option Expr
  pub group_by : Option (List Text)
  pub having : Option Expr
  pub order_by : Option (List OrderItem)
  pub limit : Option ℤ
  pub table_alias : Option Text
  pub join : Option Join

pub data Statement : Type 0 where
  create_table : Text → List ColumnDef → Statement
  drop_table : Text → Statement
  insert : Text → Option (List Text) → List (List Expr) → Statement
  select : Select → Statement
  update : Text → List Assignment → Option Expr → Statement
  delete : Text → Option Expr → Statement
  create_index : Text → Text → Text → Statement
  drop_index : Text → Statement
  explain : Select → Statement

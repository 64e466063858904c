-- ===== src/Tests/Catalogs.antt =====
-- A catalog with a table and an index on it.
use query_x_engine.Common.{[], ◌∷◌, none}
use query_x_engine.Storage.Row.{Text, int}
use query_x_engine.Catalog.{Catalog, btree, open_catalog, create_table, create_index}
use query_x_engine.Catalog.Valid.{IsValid}
use query_x_engine.Catalog.Runs.{new, created_table, created_index, Reachable-IsValid}

abbrev users : Text
users = 117 ∷ 115 ∷ []

abbrev age : Text
age = 97 ∷ []

abbrev with_table : Catalog
with_table = (create_table users (record { name = age; type = int } ∷ []) (open_catalog none)).1

Reachable-IsValid_example : IsValid (create_index age users age btree with_table).1
Reachable-IsValid_example =
    Reachable-IsValid (create_index age users age btree with_table).1
      (created_index age users age btree (created_table users _ new))

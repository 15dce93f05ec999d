-- ===== src/Store/Sql.antt =====
-- What src/core/metadata_store.cpp uses of SQLite. Each statement of the source has a name; the
-- library, which is not part of the repository, decides whether it runs a statement, and matches
-- LIKE patterns. A statement that runs has the effect that its text says.
use tribios_vfs.Common.{
  ℕ, Bool, List, Bytes, codes, ◌++◌, Option, none, some, take, [], ◌∷◌, ◌==◌, if◌then◌else◌,
}
use tribios_vfs.Store.Types.{Database}

pub data Statement : Type 0 where
  save_project save_workspace select_workspaces select_tombstones : Statement
  update_state update_reclaim insert_tombstone delete_tombstones clear_workspace : Statement
  insert_operation update_phase delete_operation select_operations : Statement
  begin_immediate commit insert_diagnostic select_diagnostic : Statement

-- `refuses` says which statements cannot be prepared or, where they give no rows, do not end in
-- SQLITE_DONE; `rows_read` has the number of rows after which a step of a query fails, if one does.
-- `stays_open` says whether a refused COMMIT leaves the transaction open with its changes, which the
-- connection then sees; otherwise SQLite has rolled it back. `like pattern text` is
-- `text LIKE pattern ESCAPE '\'`.
pub record Sqlite : Type 0 where
  pub refuses : Statement → Bool
  pub rows_read : Statement → Option ℕ
  pub stays_open : Bool
  pub message : Statement → Bytes
  pub like : Bytes → Bytes → Bool
  pub now : ℕ

-- A text is bound by `sqlite3_bind_text` as a C string: it ends before its first zero byte.
unfoldable pub bound_text : Bytes → Bytes
bound_text [] = []
bound_text (c ∷ s) = let rest = bound_text s in if c == 0 then [] else c ∷ rest

-- `std::expected<T, std::string>`.
pub data Outcome {ℓ} (A : Type ℓ) : Type ℓ where
  ok : A → Outcome A
  error : Bytes → Outcome A

unfoldable pub store_error {ℓ} : {A : Type ℓ} → Sqlite → Statement → Outcome A
store_error sql statement = error (codes "metadata store: " ++ sql.message statement)

-- `execute_statement_without_rows`: an error leaves the tables alone.
unfoldable pub execute :
    Sqlite → Statement → (Database → Database) → Database → Outcome (Unit {0}) × Database
unfolding store_error
execute sql statement effect db =
    if sql.refuses statement then (store_error sql statement, db) else (ok tt, effect db)

-- The rows before the step that fails.
unfoldable pub stepped {ℓ} : {A : Type ℓ} → Option ℕ → List A → List A
stepped none rows = rows
stepped (some n) rows = take n rows

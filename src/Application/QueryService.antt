-- ===== src/Application/QueryService.antt =====
-- internal/application/query_service.go: the view of a stored transaction, by its id or by the
-- identity that its provider gave it.
use jungle_gaming_backend_te.Prelude.{String, Bool}
use jungle_gaming_backend_te.Errors.{Result, ok, ◌>>=◌}
use jungle_gaming_backend_te.Application.Contracts.{TransactionView, transaction_view}
use jungle_gaming_backend_te.Store.Tables.{Db}
use jungle_gaming_backend_te.Store.Transactions.{get_transaction, get_provider_transaction}

module _ (parse_iso : String → Bool) where
  -- `Transaction`
  unfoldable pub transaction : String → Db → Result TransactionView
  transaction transaction_id db = do
    t ← get_transaction parse_iso transaction_id db
    ok (transaction_view t)

  -- `ProviderTransaction`
  unfoldable pub provider_transaction : String → String → Db → Result TransactionView
  provider_transaction provider_id external_id db = do
    t ← get_provider_transaction parse_iso provider_id external_id db
    ok (transaction_view t)

-- ===== src/Transport/Wallets.antt =====
-- internal/transport/httpapi/wallet_handler.go: the handlers of wallets.
use jungle_gaming_backend_te.Prelude.{
  String, not, ◌||◌, Option, none, some, is_empty, if◌then◌else◌,
}
use jungle_gaming_backend_te.Prelude.Int.{ℤ, pos, ltb_ℤ}
use jungle_gaming_backend_te.Errors.{Result, ok, err}
use jungle_gaming_backend_te.Domain.Money.{Money}
use jungle_gaming_backend_te.Domain.Money.Text.{parse_money}
use jungle_gaming_backend_te.Application.Contracts.{WalletView, ReconciliationView, LedgerPage}
use jungle_gaming_backend_te.Application.Environment.{Environment, Call}
use jungle_gaming_backend_te.Application.WalletService
use jungle_gaming_backend_te.Application.WalletService.{create, get}
use jungle_gaming_backend_te.Application.WalletService.Cursor.{CursorFormat}
use jungle_gaming_backend_te.Application.WalletService.Ledger.{ledger}
use jungle_gaming_backend_te.Store.Tables.{Db, Postgres}
use jungle_gaming_backend_te.Transport.Http.{
  Response, problem, CreateWalletRequest, Headers, Decoders, write_error, respond, correlation_id,
}

module _ (env : Environment) (decoders : Decoders) where
  module _ (call : Call) (headers : Headers) where
    unfoldable pub create_money : CreateWalletRequest → Result Money → Db → Response WalletView × Db
    create_money request (err e) db = (write_error e, db)
    create_money request (ok money) db =
        let (answer, db') =
          create env call
            (record {
              player_id = request.player_id;
              initial_balance = money;
              correlation_id = correlation_id headers;
            })
            db in
        (respond 201 answer, db')

    unfoldable pub create_body : Option CreateWalletRequest → Db → Response WalletView × Db
    unfolding create_money
    create_body none db = (problem 400 "INVALID_JSON", db)
    create_body (some request) db =
        if not (decoders.valid_wallet_request request)
        then (problem 400 "INVALID_REQUEST", db)
        else create_money request (parse_money env.parse_iso request.amount request.currency) db

    -- `createWallet`
    unfoldable pub create_wallet : String → Db → Response WalletView × Db
    unfolding create_body
    create_wallet body db = create_body (decoders.wallet_json body) db

  -- `getWallet`
  unfoldable pub get_wallet : String → Db → Response WalletView
  get_wallet id db =
      if not (decoders.valid_uuid id)
      then problem 400 "INVALID_ID"
      else respond 200 (get env.parse_iso id db).0

  -- `reconcile`
  unfoldable pub reconcile : String → Db → Response ReconciliationView
  reconcile id db =
      if not (decoders.valid_uuid id)
      then problem 400 "INVALID_ID"
      else respond 200 (WalletService.reconcile env.parse_iso id db).0

module _ (env : Environment) (decoders : Decoders) (postgres : Postgres)
    (format : CursorFormat) where
  -- `getLedger`; the limit is the text of the query, which may be empty.
  unfoldable pub ledger_limit : String → Option ℤ
  ledger_limit raw = if is_empty raw then some (pos 50) else decoders.atoi raw

  unfoldable pub ledger_page : String → String → Option ℤ → Db → Response LedgerPage
  ledger_page id cursor none db = problem 400 "INVALID_LIMIT"
  ledger_page id cursor (some limit) db =
      if ltb_ℤ limit (pos 1) || ltb_ℤ (pos 100) limit
      then problem 400 "INVALID_LIMIT"
      else respond 200 (ledger postgres env.parse_iso format id cursor limit db)

  unfoldable pub get_ledger : String → String → String → Db → Response LedgerPage
  unfolding ledger_limit ledger_page
  get_ledger id raw_limit cursor db =
      if not (decoders.valid_uuid id)
      then problem 400 "INVALID_ID"
      else ledger_page id cursor (ledger_limit raw_limit) db

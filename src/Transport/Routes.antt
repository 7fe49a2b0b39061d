-- ===== src/Transport/Routes.antt =====
-- internal/transport/httpapi/routes.go: the routes behind the authentication.
use jungle_gaming_backend_te.Prelude.{String}
use jungle_gaming_backend_te.Application.Contracts.{ProcessWagerResult, WalletView, TransactionView}
use jungle_gaming_backend_te.Application.Environment.{Environment, Call}
use jungle_gaming_backend_te.Store.Tables.{Db}
use jungle_gaming_backend_te.Transport.Auth.{
  Authenticator, Admission, refused, admitted, authenticate, require_internal,
}
use jungle_gaming_backend_te.Transport.Http.{
  Response, problem, Headers, Decoders, request_context, process_wager, get_provider_transaction,
}
use jungle_gaming_backend_te.Transport.Wallets.{create_wallet}

-- The routes behind the authentication (`Routes`).
module _ (a : Authenticator) (env : Environment) (decoders : Decoders) where
  unfoldable pub wager_route :
      Admission → Call → Headers → String → Db → Response ProcessWagerResult × Db
  wager_route (refused status code) call headers body db = (problem status code, db)
  wager_route (admitted p) call headers body db = process_wager env decoders call headers p body db

  -- `POST /wagering/transactions`
  unfoldable pub post_transactions :
      Call → String → Headers → String → Db → Response ProcessWagerResult × Db
  unfolding wager_route
  post_transactions call fresh headers body db =
      wager_route (authenticate a headers.authorization) call (request_context fresh headers) body
        db

  unfoldable pub view_route : Admission → String → String → Db → Response TransactionView
  view_route (refused status code) provider_id external_id db = problem status code
  view_route (admitted p) provider_id external_id db =
      get_provider_transaction env decoders p provider_id external_id db

  -- `GET /providers/{providerId}/wagering/transactions/{externalTransactionId}`
  unfoldable pub get_provider_transactions :
      Headers → String → String → Db → Response TransactionView
  unfolding view_route
  get_provider_transactions headers provider_id external_id db =
      view_route (authenticate a headers.authorization) provider_id external_id db

  -- The routes of the internal service: its role is required behind the authentication.
  unfoldable pub internal_admission : Admission → Admission
  internal_admission (refused status code) = refused status code
  internal_admission (admitted p) = require_internal a p

  unfoldable pub wallet_route : Admission → Call → Headers → String → Db → Response WalletView × Db
  wallet_route (refused status code) call headers body db = (problem status code, db)
  wallet_route (admitted p) call headers body db = create_wallet env decoders call headers body db

  -- `POST /wallets`
  unfoldable pub post_wallets : Call → String → Headers → String → Db → Response WalletView × Db
  unfolding wallet_route internal_admission
  post_wallets call fresh headers body db =
      wallet_route (internal_admission (authenticate a headers.authorization)) call
        (request_context fresh headers) body db

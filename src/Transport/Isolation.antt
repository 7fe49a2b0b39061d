-- ===== src/Transport/Isolation.antt =====
-- Providers of internal/transport/httpapi: a wager is processed for the authenticated provider alone.
use jungle_gaming_backend_te.Prelude.{
  String, ◌≡◌, refl, Bool, true, false, Option, none, some, inl, inr, is_empty, arith, Bool-cases,
}
use jungle_gaming_backend_te.Errors.{Result, Result-cases, ok, err}
use jungle_gaming_backend_te.Domain.Money.{Money}
use jungle_gaming_backend_te.Application.Contracts.{ProcessWagerResult}
use jungle_gaming_backend_te.Application.Environment.{Environment, Call}
use jungle_gaming_backend_te.Application.WagerService.Process.{process}
use jungle_gaming_backend_te.Application.WagerService.Atomic.{process-err}
use jungle_gaming_backend_te.Store.Tables.{Db}
use jungle_gaming_backend_te.Transport.Auth.{
  Principal, Authenticator, Admission, refused, admitted, authenticate,
}
use jungle_gaming_backend_te.Transport.Http.{
  Response, problem, reply, WagerRequest, Headers, Decoders, wager_status, wager_response,
  request_command, request_context, is_foreign, process_money, process_request, process_body,
  process_wager,
}
use jungle_gaming_backend_te.Transport.Routes.{wager_route, post_transactions}
use jungle_gaming_backend_te.Transport.Verified.{IsVerified}

-- A response that carries a result.
abbrev pub is_reply : {A : Type 0} → Response A → Bool
is_reply (reply _ _) = true
is_reply (problem _ _) = false

module _ (env : Environment) (decoders : Decoders) where
  -- The wager of a request, processed for the provider that was authenticated.
  pub record IsOwn (call : Call) (headers : Headers) (p : Principal) (body : String)
      (answer : Response ProcessWagerResult × Db) (db : Db) : Type 0 where
    pub request : WagerRequest
    pub money : Money
    pub result : ProcessWagerResult
    pub decoded : decoders.wager_json body ≡ some request
    pub own : p.provider_id ≡ request.provider_id
    pub named : is_empty p.provider_id ≡ false
    pub answered : answer.0 ≡ reply (wager_status result.status) result
    pub processed :
        process env call
          (request_command headers (decoders.trim_space headers.idempotency_key) request money)
          db
        ≡ (ok result, answer.1)

  module _ (call : Call) (headers : Headers) (p : Principal) (body : String) where
    money_kept :
        (request : WagerRequest) (m : Result Money) (db : Db)
        → is_reply (process_money env decoders call headers request m db).0 ≡ false
        → (process_money env decoders call headers request m db).1 ≡ db
    unfolding process_money wager_response
    money_kept request (err e) db h = refl
    money_kept request (ok money) db h =
        let command =
          request_command headers (decoders.trim_space headers.idempotency_key) request money in
        elim (Result-cases (process env call command db).0) [
          | inl (r, e) ↦ ground (arith, e)
          | inr (x, e) ↦ process-err env call db command x e
        ]

    request_kept :
        (request : WagerRequest) (db : Db)
        → is_reply (process_request env decoders call headers p request db).0 ≡ false
        → (process_request env decoders call headers p request db).1 ≡ db
    unfolding process_request
    request_kept request db h = elim (Bool-cases (decoders.valid_wager_request request)) [
      | inr invalid ↦ rw invalid refl
      | inl valid ↦ elim (Bool-cases (is_foreign p request.provider_id)) [
        | inl foreign ↦ rw (valid, foreign) refl
        | inr mine ↦ elim (Bool-cases (is_empty (decoders.trim_space headers.idempotency_key))) [
          | inl keyless ↦ rw (valid, mine, keyless) refl
          | inr keyed ↦
              rw (valid, mine, keyed) (money_kept request _ db (rw (valid, mine, keyed) at h))
        ]
      ]
    ]

    body_kept :
        (o : Option WagerRequest) (db : Db)
        → is_reply (process_body env decoders call headers p o db).0 ≡ false
        → (process_body env decoders call headers p o db).1 ≡ db
    unfolding process_body
    body_kept none db h = refl
    body_kept (some request) db h = request_kept request db h

module _ (a : Authenticator) (env : Environment) (decoders : Decoders) (call : Call)
    (fresh : String) (headers : Headers) (body : String) (db : Db) where
  -- Who was admitted, where a wager was processed.
  pub record IsAdmitted (answer : Response ProcessWagerResult × Db) : Type 0 where
    pub principal : Principal
    pub authenticated : IsVerified a headers.authorization principal
    pub own : IsOwn env decoders call (request_context fresh headers) principal body answer db

  route_kept :
      (admission : Admission)
      → is_reply
          (wager_route a env decoders admission call (request_context fresh headers) body db).0
        ≡ false
      → (wager_route a env decoders admission call (request_context fresh headers) body db).1 ≡ db
  unfolding wager_route process_wager
  route_kept (refused status code) h = refl
  route_kept (admitted p) h =
      body_kept env decoders call (request_context fresh headers) p body (decoders.wager_json body)
        db h

  -- When `POST /wagering/transactions` responds with a problem, the tables are as they were.
  pub post_transactions-problem :
      is_reply (post_transactions a env decoders call fresh headers body db).0 ≡ false
      → (post_transactions a env decoders call fresh headers body db).1 ≡ db
  unfolding post_transactions
  post_transactions-problem h = route_kept (authenticate a headers.authorization) h

-- ===== src/Examples/Http.antt =====
-- A bet that a provider sends over HTTP, and the same without a token.
use jungle_gaming_backend_te.Prelude.{
  ◌≡◌, refl, some, none, true, false, [], ◌∷◌, codes, str_eq, if◌then◌else◌,
}
use jungle_gaming_backend_te.Domain.Transaction.{bet}
use jungle_gaming_backend_te.Transport.Auth.{Authenticator}
use jungle_gaming_backend_te.Transport.Http.{WagerRequest, Headers, Decoders}
use jungle_gaming_backend_te.Transport.Routes.{post_transactions, wager_route}
use jungle_gaming_backend_te.Transport.Isolation.{is_reply, post_transactions-problem}
use jungle_gaming_backend_te.Examples.Data.{a_call, a_db, environment}
use jungle_gaming_backend_te.Transport.Auth.{admit_parts, authenticate}
use jungle_gaming_backend_te.Domain.Money.Text.{amount}

abbrev authenticator : Authenticator
authenticator = record {
  fields = λ h. if str_eq h "Bearer token" then "Bearer" ∷ "token" ∷ [] else [];
  equal_fold = str_eq;
  verifier =
      some λ _. some (record { subject = "s1"; claims = some (("provider_id", "acme") ∷ []) });
  string_of = λ raw. some raw;
  roles_of = λ _. none;
  provider_claim = "provider_id";
  internal_role = "wallet-service";
}

abbrev a_request : WagerRequest
a_request = record {
  external_transaction_id = "x1";
  game_id = "g1";
  kind = bet;
  amount = codes "3.00";
  currency = "BRL";
  player_id = "p1";
  provider_id = "acme";
  reference_external_transaction_id = "";
  round_id = "r1";
  wallet_id = "w1";
}

abbrev decoders : Decoders
decoders = record {
  wager_json = λ _. some a_request;
  wallet_json = λ _. none;
  valid_wager_request = λ _. true;
  valid_wallet_request = λ _. true;
  valid_uuid = λ _. true;
  valid_provider_id = λ _. true;
  valid_external_id = λ _. true;
  atoi = λ _. none;
  trim_space = λ s. s;
}

abbrev signed : Headers
signed = record {
  authorization = "Bearer token";
  idempotency_key = "k1";
  x_correlation_id = "";
  x_request_id = "";
}

abbrev unsigned : Headers
unsigned = record signed { authorization = "" }

turned_away :
    is_reply (post_transactions authenticator environment decoders a_call "q1" unsigned "{}" a_db).0
    ≡ false
unfolding post_transactions wager_route authenticate admit_parts
turned_away = refl

post_transactions-problem_example :
    (post_transactions authenticator environment decoders a_call "q1" unsigned "{}" a_db).1 ≡ a_db
post_transactions-problem_example =
    post_transactions-problem authenticator environment decoders a_call "q1" unsigned "{}" a_db
      turned_away

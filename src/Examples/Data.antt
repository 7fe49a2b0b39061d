-- ===== src/Examples/Data.antt =====
-- A wallet of 10.00 BRL, a bet of 3.00 BRL on it, and the tables that hold the wallet.
use jungle_gaming_backend_te.Prelude.{arith, String, Bool, true, false, none, [], ◌∷◌, refl}
use jungle_gaming_backend_te.Prelude.Int.{ℤ, pos, ◌+ℤ◌}
use jungle_gaming_backend_te.Domain.Money.{Money, no_money}
use jungle_gaming_backend_te.Domain.Wallet.{Wallet}
use jungle_gaming_backend_te.Domain.LedgerEntry.{credit}
use jungle_gaming_backend_te.Domain.Transaction.{
  WagerTransaction, NewExternalTransaction, pending, processed, bet, TransactionKind,
}
use jungle_gaming_backend_te.Domain.Transaction.Steps.{settled}
use jungle_gaming_backend_te.Application.Contracts.{ProcessWagerCommand, CreateWalletCommand}
use jungle_gaming_backend_te.Application.Environment.{Environment, Call, ReferencePolicy}
use jungle_gaming_backend_te.Store.Tables.{Db, LedgerRow}
use jungle_gaming_backend_te.Store.Wallets.{wallet_row, find_wallet_row, wallet_taken}
use jungle_gaming_backend_te.Store.Ledger.{sum_where}
use jungle_gaming_backend_te.Store.Books.{IsBooked, balance_in}
use jungle_gaming_backend_te.Application.Bookkeeping.Openings.{inserted-IsOpening, opened-IsBooked}

abbrev pub every_code : String → Bool
every_code _ = true

abbrev pub reais : ℤ → Money
reais minor = record { minor = minor; currency = "BRL" }

abbrev pub wallet_one : Wallet
wallet_one = record {
  id = "w1";
  player_id = "p1";
  balance = reais (pos 1000);
  version = pos 1;
  created_at = 5;
  updated_at = 5;
}

abbrev pub policy : ReferencePolicy
policy = record { max_attempts = pos 5; base_backoff = 100; max_backoff = 1000 }

abbrev pub environment : Environment
environment = record {
  parse_iso = every_code;
  valid_wager = λ _. true;
  valid_wallet = λ _. true;
  digest = λ fields. fields.external_transaction_id;
  policy = policy;
}

abbrev pub a_call : Call
a_call = record {
  now = 9;
  correlation_id = "c1";
  wallet_id = "w2";
  transaction_id = "t2";
  entry_id = "l2";
  event_id = "e2";
  changed_event_id = "e3";
}

abbrev pub a_command : TransactionKind → ℤ → String → ProcessWagerCommand
a_command kind minor reference = record {
  provider_id = "acme";
  external_transaction_id = "x1";
  idempotency_key = "k1";
  player_id = "p1";
  wallet_id = "w1";
  round_id = "r1";
  game_id = "g1";
  kind = kind;
  money = reais minor;
  reference_external_transaction_id = reference;
  correlation_id = "";
  inbox = none;
}

abbrev pub a_bet : ProcessWagerCommand
a_bet = a_command bet (pos 300) ""

abbrev pub a_new_wallet : CreateWalletCommand
a_new_wallet = record { player_id = "p2"; initial_balance = reais (pos 250); correlation_id = "" }

abbrev pub bet_input : NewExternalTransaction
bet_input = record {
  id = "t1";
  provider_id = "acme";
  external_id = "x1";
  idempotency_key = "k1";
  payload_hash = "x1";
  wallet_id = "w1";
  player_id = "p1";
  round_id = "r1";
  game_id = "g1";
  kind = bet;
  money = reais (pos 300);
  reference_external_id = "";
  now = 7;
}

abbrev pub new_bet : WagerTransaction
new_bet = record {
  id = "t1";
  provider_id = "acme";
  external_id = "x1";
  idempotency_key = "k1";
  payload_hash = "x1";
  wallet_id = "w1";
  player_id = "p1";
  round_id = "r1";
  game_id = "g1";
  kind = bet;
  money = reais (pos 300);
  reference_external_id = "";
  reference_transaction_id = "";
  status = pending;
  failure_code = "";
  result_balance = no_money;
  has_result_balance = false;
  attempt_count = pos 0;
  next_attempt_at = none;
  created_at = 7;
  updated_at = 7;
}

abbrev pub done_bet : WagerTransaction
done_bet = settled new_bet processed "" (reais (pos 700)) 9

abbrev pub opening_entry : LedgerRow
opening_entry = record {
  id = "l1";
  wallet_id = "w1";
  transaction_id = "t0";
  direction = credit;
  money_minor = pos 1000;
  currency = "BRL";
  balance_before_minor = pos 0;
  balance_after_minor = pos 1000;
  created_at = 5;
}

abbrev pub a_db : Db
a_db = record {
  wallets = wallet_row wallet_one ∷ [];
  transactions = [];
  ledger = opening_entry ∷ [];
  inbox = [];
  outbox = [];
}

nothing-IsBooked : IsBooked [] []
unfolding find_wallet_row sum_where balance_in ◌+ℤ◌
nothing-IsBooked = record { distinct = tt; small = λ id r h. cc; balanced = λ id c. refl }

pub a_db-IsBooked : IsBooked (a_db.wallets) (a_db.ledger)
a_db-IsBooked =
    opened-IsBooked wallet_one (wallet_row wallet_one ∷ []) []
      (inserted-IsOpening wallet_one [] [] nothing-IsBooked (omega arith)
        (unfold wallet_taken in refl))
      opening_entry refl refl refl refl

-- ===== src/Domain/Transaction/Storable.antt =====
-- Which transactions can be stored and read back: the tests of `RehydrateWagerTransaction`, as an
-- invariant of a transaction.
use jungle_gaming_backend_te.Prelude.{ap, String, ◌≡◌, Bool, false}
use jungle_gaming_backend_te.Errors.{fail_if-eq-ok, check-eq-ok, ok}
use jungle_gaming_backend_te.Domain.Money.{validate}
use jungle_gaming_backend_te.Domain.Transaction.{WagerTransaction}
use jungle_gaming_backend_te.Domain.Transaction.Rehydrate.{
  RehydratedTransaction, lacks_identity, bad_opening, bad_external, check_amount, bad_status,
  bad_result, bad_result_balance, bad_result_currency, bad_failure_code, bad_schedule,
  bad_reference, restore, rehydrate_wager_transaction,
}

-- The fields of a transaction as they are read from storage.
abbrev pub snapshot : WagerTransaction → RehydratedTransaction
snapshot t = record {
  id = t.id;
  provider_id = t.provider_id;
  external_id = t.external_id;
  idempotency_key = t.idempotency_key;
  payload_hash = t.payload_hash;
  wallet_id = t.wallet_id;
  player_id = t.player_id;
  round_id = t.round_id;
  game_id = t.game_id;
  kind = t.kind;
  money = t.money;
  reference_external_id = t.reference_external_id;
  reference_transaction_id = t.reference_transaction_id;
  status = t.status;
  failure_code = t.failure_code;
  result_balance = t.result_balance;
  has_result_balance = t.has_result_balance;
  attempt_count = t.attempt_count;
  next_attempt_at = t.next_attempt_at;
  created_at = t.created_at;
  updated_at = t.updated_at;
}

pub record IsStorable (parse_iso : String → Bool) (s : RehydratedTransaction) : Type 0 where
  pub identified : lacks_identity s ≡ false
  pub opening_fits : bad_opening s ≡ false
  pub external_fits : bad_external s ≡ false
  pub money_valid : validate parse_iso s.money ≡ ok tt
  pub amount_fits : check_amount parse_iso s ≡ ok tt
  pub status_known : bad_status s ≡ false
  pub result_fits : bad_result s ≡ false
  pub balance_valid : bad_result_balance parse_iso s ≡ false
  pub currency_fits : bad_result_currency s ≡ false
  pub code_fits : bad_failure_code s ≡ false
  pub schedule_fits : bad_schedule s ≡ false
  pub reference_fits : bad_reference s ≡ false

ok-injective : {a b : WagerTransaction} → ok a ≡ ok b → b ≡ a
ok-injective h = cc

module _ (parse_iso : String → Bool) where
  -- A transaction that meets the invariant is read back from its stored fields unchanged.
  pub rehydrate-snapshot :
      (t : WagerTransaction)
      → IsStorable parse_iso (snapshot t)
      → rehydrate_wager_transaction parse_iso (snapshot t) ≡ ok t
  unfolding rehydrate_wager_transaction restore
  rehydrate-snapshot t h = rw (h.identified) (
      rw h.opening_fits (
        rw h.external_fits (
          rw h.money_valid (
            rw h.amount_fits (
              rw h.status_known (
                rw h.result_fits (
                  rw h.balance_valid (
                    rw h.currency_fits
                      (rw h.code_fits (rw h.schedule_fits (rw h.reference_fits)))))))))))

  -- The fields that `RehydrateWagerTransaction` accepts pass each of its checks, and are the fields of
  -- the transaction that it returns.
  pub rehydrate-IsStorable :
      (s : RehydratedTransaction) (t : WagerTransaction)
      → rehydrate_wager_transaction parse_iso s ≡ ok t
      → IsStorable parse_iso s × (snapshot t ≡ s)
  unfolding rehydrate_wager_transaction
  rehydrate-IsStorable s t h =
      let (g₁, h₁) = fail_if-eq-ok _ _ _ h in
      let (g₂, h₂) = fail_if-eq-ok _ _ _ h₁ in
      let (g₃, h₃) = fail_if-eq-ok _ _ _ h₂ in
      let (g₄, h₄) = check-eq-ok _ _ h₃ in
      let (g₅, h₅) = check-eq-ok _ _ h₄ in
      let (g₆, h₆) = fail_if-eq-ok _ _ _ h₅ in
      let (g₇, h₇) = fail_if-eq-ok _ _ _ h₆ in
      let (g₈, h₈) = fail_if-eq-ok _ _ _ h₇ in
      let (g₉, h₉) = fail_if-eq-ok _ _ _ h₈ in
      let (g₁₀, h₁₀) = fail_if-eq-ok _ _ _ h₉ in
      let (g₁₁, h₁₁) = fail_if-eq-ok _ _ _ h₁₀ in
      let (g₁₂, h₁₂) = fail_if-eq-ok _ _ _ h₁₁ in
      (
        record {
          identified = g₁;
          opening_fits = g₂;
          external_fits = g₃;
          money_valid = g₄;
          amount_fits = g₅;
          status_known = g₆;
          result_fits = g₇;
          balance_valid = g₈;
          currency_fits = g₉;
          code_fits = g₁₀;
          schedule_fits = g₁₁;
          reference_fits = g₁₂;
        },
        unfold restore in ap snapshot (ok-injective h₁₂),
      )

-- ===== src/Domain/Transaction/History.antt =====
-- The transactions of internal/domain/transaction.go that any number of transitions lead to.
use jungle_gaming_backend_te.Prelude.{
  ◌<◌, ◌^◌, ◌-◌, ap, sym, ◌∙◌, ℕ, zero, suc, ◌≤◌, subst, String, ◌≡◌, refl, ◌⊎◌, inl, inr, Bool,
  true, false, Option, arith,
}
use jungle_gaming_backend_te.Prelude.Int.{ℤ, pos, ◌≤ℤ◌, ◌+ℤ◌}
use jungle_gaming_backend_te.Prelude.Word.{add64, add64_of_fits}
use jungle_gaming_backend_te.Errors.{ok}
use jungle_gaming_backend_te.Domain.Time.{Time}
use jungle_gaming_backend_te.Domain.Money.{Money}
use jungle_gaming_backend_te.Domain.Transaction.{
  WagerTransaction, TransactionStatus, is_terminal, NewExternalTransaction, created,
  new_wager_transaction,
}
use jungle_gaming_backend_te.Domain.Transaction.Storable.{snapshot, IsStorable}
use jungle_gaming_backend_te.Domain.Transaction.Rehydrate.{rehydrate_wager_transaction}
use jungle_gaming_backend_te.Domain.Transaction.Steps.{
  mark_pending_reference-made, resolve_reference-made, mark_processed-made, reject-made, fail-made,
}
use jungle_gaming_backend_te.Domain.Transaction.Lifecycle.{
  Transition, pend, resolve, process, refuse, give_up, Transition-live, Transition-IsStorable,
  new_wager_transaction-made, created-IsStorable,
}
use jungle_gaming_backend_te.Domain.Transaction.Storable.{rehydrate-snapshot}

-- What a transition never changes.
pub record SameWager (t u : WagerTransaction) : Type 0 where
  pub id : u.id ≡ t.id
  pub provider_id : u.provider_id ≡ t.provider_id
  pub external_id : u.external_id ≡ t.external_id
  pub idempotency_key : u.idempotency_key ≡ t.idempotency_key
  pub payload_hash : u.payload_hash ≡ t.payload_hash
  pub wallet_id : u.wallet_id ≡ t.wallet_id
  pub player_id : u.player_id ≡ t.player_id
  pub round_id : u.round_id ≡ t.round_id
  pub kind : u.kind ≡ t.kind
  pub money : u.money ≡ t.money
  pub reference_external_id : u.reference_external_id ≡ t.reference_external_id
  pub created_at : u.created_at ≡ t.created_at

SameWager-refl : (t : WagerTransaction) → SameWager t t
SameWager-refl t = record {
  id = refl;
  provider_id = refl;
  external_id = refl;
  idempotency_key = refl;
  payload_hash = refl;
  wallet_id = refl;
  player_id = refl;
  round_id = refl;
  kind = refl;
  money = refl;
  reference_external_id = refl;
  created_at = refl;
}

SameWager-trans : {t u v : WagerTransaction} → SameWager t u → SameWager u v → SameWager t v
SameWager-trans h k = record {
  id = k.id ∙ h.id;
  provider_id = k.provider_id ∙ h.provider_id;
  external_id = k.external_id ∙ h.external_id;
  idempotency_key = k.idempotency_key ∙ h.idempotency_key;
  payload_hash = k.payload_hash ∙ h.payload_hash;
  wallet_id = k.wallet_id ∙ h.wallet_id;
  player_id = k.player_id ∙ h.player_id;
  round_id = k.round_id ∙ h.round_id;
  kind = k.kind ∙ h.kind;
  money = k.money ∙ h.money;
  reference_external_id = k.reference_external_id ∙ h.reference_external_id;
  created_at = k.created_at ∙ h.created_at;
}

-- The fields that a transition writes are not among them.
same_but :
    (t : WagerTransaction) (status : TransactionStatus) (reference_id code : String)
    (balance : Money) (has : Bool) (attempts : ℤ) (next : Option Time) (now : Time)
    → SameWager t (record t {
      reference_transaction_id = reference_id;
      status = status;
      failure_code = code;
      result_balance = balance;
      has_result_balance = has;
      attempt_count = attempts;
      next_attempt_at = next;
      updated_at = now;
    })
same_but t status reference_id code balance has attempts next now = record {
  id = refl;
  provider_id = refl;
  external_id = refl;
  idempotency_key = refl;
  payload_hash = refl;
  wallet_id = refl;
  player_id = refl;
  round_id = refl;
  kind = refl;
  money = refl;
  reference_external_id = refl;
  created_at = refl;
}

one_more :
    (n : ℕ) (a : ℤ)
    → n < 2 ^ 63 - 1
    → pos 0 ≤ℤ a
    → a ≤ℤ pos n
    → (pos 0 ≤ℤ add64 a (pos 1)) × (add64 a (pos 1) ≤ℤ pos (suc n))
unfolding ◌+ℤ◌
one_more n a small lo hi = rw (add64_of_fits a (pos 1) (ground arith)) (ground arith)

live_and_final : (t : WagerTransaction) → is_terminal t ≡ false → is_terminal t ≡ true → ⊥
live_and_final t p q = cc

module _ (parse_iso : String → Bool) where
  -- The transactions that `n` transitions lead to.
  pub data Reach (t : WagerTransaction) : ℕ → WagerTransaction → Type 0 where
    here : Reach t zero t
    onward :
        {n : ℕ} {u v : WagerTransaction}
        → Reach t n u
        → Transition parse_iso u v
        → Reach t (suc n) v

  pub Transition-SameWager : (t u : WagerTransaction) → Transition parse_iso t u → SameWager t u
  Transition-SameWager t u (pend next now e) =
      let (_, _, _, made) = mark_pending_reference-made t u next now e in
      subst (SameWager t) made (same_but t _ _ _ _ _ _ _ _)
  Transition-SameWager t u (resolve id now e) =
      let (_, _, _, _, made) = resolve_reference-made t u id now e in
      subst (SameWager t) made (same_but t _ _ _ _ _ _ _ _)
  Transition-SameWager t u (process b now e) =
      let (_, _, _, _, _, made) = mark_processed-made parse_iso t u b now e in
      subst (SameWager t) made (same_but t _ _ _ _ _ _ _ _)
  Transition-SameWager t u (refuse c b now e) =
      let (_, _, _, _, _, made) = reject-made parse_iso t u c b now e in
      subst (SameWager t) made (same_but t _ _ _ _ _ _ _ _)
  Transition-SameWager t u (give_up c b now e) =
      let (_, _, _, _, _, _, made) = fail-made parse_iso t u c b now e in
      subst (SameWager t) made (same_but t _ _ _ _ _ _ _ _)

  -- The attempts that are counted: none or one more.
  Transition-attempts :
      (t u : WagerTransaction)
      → Transition parse_iso t u
      → (u.attempt_count ≡ t.attempt_count) ⊎ (u.attempt_count ≡ add64 t.attempt_count (pos 1))
  Transition-attempts t u (pend next now e) =
      let (_, _, _, made) = mark_pending_reference-made t u next now e in
      inr (ap (λ (x : WagerTransaction). x.attempt_count) (sym made))
  Transition-attempts t u (resolve id now e) =
      let (_, _, _, _, made) = resolve_reference-made t u id now e in
      inl (ap (λ (x : WagerTransaction). x.attempt_count) (sym made))
  Transition-attempts t u (process b now e) =
      let (_, _, _, _, _, made) = mark_processed-made parse_iso t u b now e in
      inl (ap (λ (x : WagerTransaction). x.attempt_count) (sym made))
  Transition-attempts t u (refuse c b now e) =
      let (_, _, _, _, _, made) = reject-made parse_iso t u c b now e in
      inl (ap (λ (x : WagerTransaction). x.attempt_count) (sym made))
  Transition-attempts t u (give_up c b now e) =
      let (_, _, _, _, _, _, made) = fail-made parse_iso t u c b now e in
      inl (ap (λ (x : WagerTransaction). x.attempt_count) (sym made))

  -- Storable, with at most `n` attempts.
  pub record IsSound (n : ℕ) (t : WagerTransaction) : Type 0 where
    pub storable : IsStorable parse_iso (snapshot t)
    pub counted : pos 0 ≤ℤ t.attempt_count
    pub bounded : t.attempt_count ≤ℤ pos n

  Transition-IsSound :
      (n : ℕ) (t u : WagerTransaction)
      → n < 2 ^ 63 - 1
      → Transition parse_iso t u
      → IsSound n t
      → IsSound (suc n) u
  Transition-IsSound n t u small move s =
      let kept =
        Transition-IsStorable parse_iso t u move s.storable s.counted (omega (arith, s.bounded)) in
      elim (Transition-attempts t u move) [
        | inl same ↦ record {
          storable = kept;
          counted = rw same s.counted;
          bounded = rw same (omega (arith, s.bounded));
        }
        | inr more ↦
            let (low, high) = one_more n t.attempt_count small s.counted s.bounded in
            record { storable = kept; counted = rw more low; bounded = rw more high }
      ]

  Reach-IsSound :
      {t u : WagerTransaction} {n : ℕ} → IsSound 0 t → Reach t n u → n ≤ 2 ^ 63 - 1 → IsSound n u
  Reach-IsSound s here small = s
  Reach-IsSound s (onward {n = n} {u = u} {v = v} r move) small =
      Transition-IsSound n u v (omega arith) move (Reach-IsSound s r (omega arith))

  created-IsSound :
      (input : NewExternalTransaction) (t : WagerTransaction)
      → new_wager_transaction parse_iso input ≡ ok t
      → IsSound 0 t
  created-IsSound input t e =
      let (full, supported, amount, made) = new_wager_transaction-made parse_iso input t e in
      subst (IsSound 0) made (record {
        storable = created-IsStorable parse_iso input full supported amount;
        counted = unfold created in omega arith;
        bounded = unfold created in omega arith;
      })

  -- A transaction that `NewWagerTransaction` returns, after any number of transitions that an int64
  -- counts, is read back unchanged from the fields that are stored of it.
  pub history-rehydrates :
      (input : NewExternalTransaction) {t u : WagerTransaction} {n : ℕ}
      → new_wager_transaction parse_iso input ≡ ok t
      → Reach t n u
      → n ≤ 2 ^ 63 - 1
      → rehydrate_wager_transaction parse_iso (snapshot u) ≡ ok u
  history-rehydrates input {t} {u} e r small =
      rehydrate-snapshot parse_iso u (Reach-IsSound (created-IsSound input t e) r small).storable

  -- Whatever transitions reach is the same wager, in its identity, parties, kind, amount and
  -- reference.
  pub Reach-SameWager : {t u : WagerTransaction} {n : ℕ} → Reach t n u → SameWager t u
  Reach-SameWager {t} here = SameWager-refl t
  Reach-SameWager (onward {u = u} {v = v} r move) =
      SameWager-trans (Reach-SameWager r) (Transition-SameWager u v move)

  -- A transaction in a terminal status reaches only itself, by no transition.
  pub Reach-final :
      {t u : WagerTransaction} {n : ℕ} → Reach t n u → is_terminal t ≡ true → (n ≡ 0) × (u ≡ t)
  Reach-final here e = (refl, refl)
  Reach-final (onward {n = n} {u = u} {v = v} r move) e = absurd (
      live_and_final u (Transition-live parse_iso u v move)
        (ap is_terminal (Reach-final r e).1 ∙ e))

-- ===== src/Domain/Wallet/Movements.antt =====
-- The movements of internal/domain/wallet.go, branch by branch.
use jungle_gaming_backend_te.Prelude.{
  subst, ◌∙◌, String, ◌≡◌, refl, Bool, true, false, not, ◌||◌, arith, eq_iff, Bool-cases, inl, inr,
  if◌then◌else◌,
}
use jungle_gaming_backend_te.Prelude.Int.{
  ℤ, pos, ◌+ℤ◌, ◌-ℤ◌, ◌≤ℤ◌, ◌<ℤ◌, ltb_ℤ, eqb_ℤ, -ℤ_parts, +ℤ_parts,
}
use jungle_gaming_backend_te.Prelude.Word.{fits, InInt64, min_int64}
use jungle_gaming_backend_te.Errors.{
  ok, err, ◌>>◌, invalid_money, insufficient_funds, money_overflow,
}
use jungle_gaming_backend_te.Domain.Time.{Time, is_zero_time}
use jungle_gaming_backend_te.Domain.Money.{Money, validate, compatible, is_positive, is_negative}
use jungle_gaming_backend_te.Domain.Money.Arith.{add_lem, subtract_lem}
use jungle_gaming_backend_te.Domain.Wallet.{Wallet, Movement, apply, debit, credit}

-- The amounts of money that a wallet can hold: an int64 that is not negative, in a valid currency.
pub record IsBalance (parse_iso : String → Bool) (m : Money) : Type 0 where
  pub nonneg : pos 0 ≤ℤ m.minor
  pub small : InInt64 m.minor
  pub valid : validate parse_iso m ≡ ok tt

-- A positive amount has no least int64 in it, and what is left of a balance cannot overflow.
debit_fits : (a b : ℤ) → InInt64 a → pos 0 ≤ℤ a → InInt64 b → pos 0 <ℤ b → fits (a -ℤ b) ≡ true
unfolding ◌-ℤ◌
debit_fits a b ha na hb pb = ground arith

debit_not_least : (b : ℤ) → pos 0 <ℤ b → eqb_ℤ b min_int64 ≡ false
debit_not_least b h = ground arith

sign_of_difference : (a b : ℤ) → ltb_ℤ (a -ℤ b) (pos 0) ≡ ltb_ℤ a b
sign_of_difference a b = ground (arith, -ℤ_parts a b)

debit_left :
    (a b : ℤ)
    → ltb_ℤ a b ≡ false
    → InInt64 a
    → pos 0 ≤ℤ a
    → InInt64 b
    → ltb_ℤ (pos 0) b ≡ true
    → (pos 0 ≤ℤ a -ℤ b) × InInt64 (a -ℤ b)
unfolding ◌-ℤ◌
debit_left a b e ha na hb pb = ground arith

credit_left :
    (a b : ℤ)
    → pos 0 ≤ℤ a
    → ltb_ℤ (pos 0) b ≡ true
    → fits (a +ℤ b) ≡ true
    → (pos 0 ≤ℤ a +ℤ b) × InInt64 (a +ℤ b)
credit_left a b na pb f = ground (arith, +ℤ_parts a b)

-- The movement that a debit or a credit makes when it ends at a balance of `v` minor units.
abbrev pub moved : Wallet → ℤ → Time → Movement
moved w v now =
    let after : Money = record { minor = v; currency = w.balance.currency } in
    record { before = w.balance; after = after; wallet = apply w after now }

module _ (parse_iso : String → Bool) where
  -- `Debit` of an int64 amount, on a wallet whose balance is valid, an int64 and not negative: an amount that is not positive (or no time) is refused
  -- as invalid money, then a currency that is invalid or not the wallet's; what remains fails for
  -- insufficient funds exactly where the amount exceeds the balance, and else takes the exact amount.
  -- No debit overflows.
  pub debit_lem :
      (w : Wallet) (amount : Money) (now : Time)
      → IsBalance parse_iso w.balance
      → InInt64 amount.minor
      → debit parse_iso w amount now ≡ (
          if not (is_positive amount) || is_zero_time now
          then err invalid_money
          else validate parse_iso amount
            >> (compatible parse_iso w.balance amount
                >> (if ltb_ℤ w.balance.minor amount.minor
                    then err insufficient_funds
                    else ok (moved w (w.balance.minor -ℤ amount.minor) now))))
  unfolding debit is_positive is_negative
  debit_lem w amount now b small = elim (Bool-cases (ltb_ℤ (pos 0) amount.minor)) [
    | inl p ↦ rw (subtract_lem parse_iso w.balance amount b.small small) (
        rw (debit_not_least amount.minor (ground arith)) (
          rw (debit_fits w.balance.minor amount.minor b.small b.nonneg small (ground arith))
            (ground (arith, sign_of_difference w.balance.minor amount.minor))))
    | inr n ↦ ground arith
  ]

  -- `Credit` of an int64 amount, on a wallet whose balance is valid, an int64 and not negative: refused as invalid money, for its currency, or for
  -- overflow exactly where the sum is no int64; else the balance grows by the exact amount.
  pub credit_lem :
      (w : Wallet) (amount : Money) (now : Time)
      → IsBalance parse_iso w.balance
      → InInt64 amount.minor
      → credit parse_iso w amount now ≡ (
          if not (is_positive amount) || is_zero_time now
          then err invalid_money
          else compatible parse_iso w.balance amount
            >> (if fits (w.balance.minor +ℤ amount.minor)
                then ok (moved w (w.balance.minor +ℤ amount.minor) now)
                else err money_overflow))
  unfolding credit
  credit_lem w amount now b small =
      rw (add_lem parse_iso w.balance amount b.small small) (ground arith)

  validate_of_currency :
      (m other : Money)
      → m.currency ≡ other.currency
      → validate parse_iso m ≡ validate parse_iso other
  unfolding validate
  validate_of_currency m other e = rw e

  compatible-currency :
      (m other : Money) → compatible parse_iso m other ≡ ok tt → other.currency ≡ m.currency
  unfolding compatible
  compatible-currency m other h = ground (arith, eq_iff m.currency other.currency)

  -- What a movement that was made says: the balance before is the wallet's, the one after is the
  -- wallet's new balance, and no currency has changed.
  pub record IsMovement (w : Wallet) (amount : Money) (now : Time) (v : Movement) : Type 0 where
    pub before : v.before ≡ w.balance
    pub wallet : v.wallet ≡ apply w v.after now
    pub positive : is_positive amount ≡ true
    pub timed : is_zero_time now ≡ false
    pub currency : v.after.currency ≡ w.balance.currency
    pub amount_currency : amount.currency ≡ w.balance.currency
    pub is_balance : IsBalance parse_iso v.after

  debit_made :
      (w : Wallet) (amount : Money) (now : Time) (v : Movement)
      → IsBalance parse_iso w.balance
      → InInt64 amount.minor
      → debit parse_iso w amount now ≡ ok v
      → (is_positive amount ≡ true)
        × (is_zero_time now ≡ false)
        × (compatible parse_iso w.balance amount ≡ ok tt)
        × (ltb_ℤ w.balance.minor amount.minor ≡ false)
        × (moved w (w.balance.minor -ℤ amount.minor) now ≡ v)
  debit_made w amount now v b small e = ground (arith, debit_lem w amount now b small)

  credit_made :
      (w : Wallet) (amount : Money) (now : Time) (v : Movement)
      → IsBalance parse_iso w.balance
      → InInt64 amount.minor
      → credit parse_iso w amount now ≡ ok v
      → (is_positive amount ≡ true)
        × (is_zero_time now ≡ false)
        × (compatible parse_iso w.balance amount ≡ ok tt)
        × (fits (w.balance.minor +ℤ amount.minor) ≡ true)
        × (moved w (w.balance.minor +ℤ amount.minor) now ≡ v)
  credit_made w amount now v b small e = ground (arith, credit_lem w amount now b small)

  moved-IsMovement :
      (w : Wallet) (amount : Money) (now : Time) (v : ℤ)
      → IsBalance parse_iso w.balance
      → is_positive amount ≡ true
      → is_zero_time now ≡ false
      → compatible parse_iso w.balance amount ≡ ok tt
      → pos 0 ≤ℤ v
      → InInt64 v
      → IsMovement w amount now (moved w v now)
  moved-IsMovement w amount now v b p t c n f = record {
    before = refl;
    wallet = refl;
    positive = p;
    timed = t;
    currency = refl;
    amount_currency = compatible-currency w.balance amount c;
    is_balance = record {
      nonneg = n;
      small = f;
      valid = validate_of_currency _ w.balance refl ∙ b.valid;
    };
  }

  -- A debit of an int64 amount that is made, on a wallet whose balance is valid, an int64 and not
  -- negative: it takes exactly the amount away, in the wallet's currency, and the balance that it
  -- leaves is again valid, an int64 and not negative.
  pub debit-IsMovement :
      (w : Wallet) (amount : Money) (now : Time) (v : Movement)
      → IsBalance parse_iso w.balance
      → InInt64 amount.minor
      → debit parse_iso w amount now ≡ ok v
      → IsMovement w amount now v × (v.after.minor ≡ w.balance.minor -ℤ amount.minor)
  unfolding is_positive
  debit-IsMovement w amount now v b small e =
      let (p, t, c, enough, done) = debit_made w amount now v b small e in
      let left = debit_left w.balance.minor amount.minor enough b.small b.nonneg small p in
      subst (λ x. IsMovement w amount now x × (x.after.minor ≡ w.balance.minor -ℤ amount.minor))
        done (moved-IsMovement w amount now _ b p t c left.0 left.1, refl)

  -- A credit of an int64 amount that is made, on a wallet whose balance is valid, an int64 and not
  -- negative: it adds exactly the amount, in the wallet's currency, and the balance that it leaves is
  -- again valid, an int64 and not negative.
  pub credit-IsMovement :
      (w : Wallet) (amount : Money) (now : Time) (v : Movement)
      → IsBalance parse_iso w.balance
      → InInt64 amount.minor
      → credit parse_iso w amount now ≡ ok v
      → IsMovement w amount now v × (v.after.minor ≡ w.balance.minor +ℤ amount.minor)
  unfolding is_positive
  credit-IsMovement w amount now v b small e =
      let (p, t, c, room, done) = credit_made w amount now v b small e in
      let grown = credit_left w.balance.minor amount.minor b.nonneg p room in
      subst (λ x. IsMovement w amount now x × (x.after.minor ≡ w.balance.minor +ℤ amount.minor))
        done (moved-IsMovement w amount now _ b p t c grown.0 grown.1, refl)

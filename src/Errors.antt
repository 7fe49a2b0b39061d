-- ===== src/Errors.antt =====
-- The sentinel errors of the domain (internal/domain/errors.go) and of the use cases
-- (internal/application/errors.go). Wrapping by `%w` keeps the sentinel that `errors.Is` finds, and
-- the message beside it is left out.
use jungle_gaming_backend_te.Prelude.{Bool, true, false, ◌≡◌, refl, ◌⊎◌, inl, inr}

pub data Error : Type 0 where
  invalid_money currency_mismatch money_overflow insufficient_funds : Error
  invalid_wallet invalid_transaction invalid_transition invalid_ledger_entry : Error
  reference_mismatch reference_not_processed : Error
  not_found conflict idempotency_payload_conflict external_transaction_conflict : Error
  inbox_payload_conflict invalid_cursor : Error
  -- an error of a package or a service that the program calls
  dependency : Error

-- What a function that may fail returns.
pub data Result {ℓ} (A : Type ℓ) : Type ℓ where
  err : Error → Result A
  ok : A → Result A

-- `if failed { return e }`
abbrev pub fail_if : Bool → Error → Result (Unit {0})
fail_if false e = ok tt
fail_if true e = err e

-- A call, the return of its error, and the code behind it.
infixl 5 ◌>>=◌
abbrev pub ◌>>=◌ {ℓ κ} : {B : Type κ} {A : Type ℓ} → Result A → (A → Result B) → Result B
err failure >>= next = err failure
ok value >>= next = next value

infixl 5 ◌>>◌
abbrev pub ◌>>◌ {κ} : {B : Type κ} → Result (Unit {0}) → Result B → Result B
check >> rest = check >>= λ _. rest

-- `err == nil`
abbrev pub is_ok {ℓ} : {A : Type ℓ} → Result A → Bool
is_ok (ok _) = true
is_ok (err _) = false

-- `if err != nil { return e }`
abbrev pub or_error {ℓ} : {A : Type ℓ} → Result A → Error → Result A
or_error (ok a) e = ok a
or_error (err _) e = err e

-- A successful chain, taken apart.
pub >>=-eq-ok {ℓ κ} :
    {B : Type κ} {A : Type ℓ} (r : Result A) (next : A → Result B) {b : B}
    → (r >>= next) ≡ ok b
    → (a : A) × (r ≡ ok a) × (next a ≡ ok b)
>>=-eq-ok (err failure) next h = cc
>>=-eq-ok (ok value) next h = (value, refl, h)

pub Result-cases {ℓ} :
    {A : Type ℓ} (r : Result A) → ((a : A) × (r ≡ ok a)) ⊎ ((e : Error) × (r ≡ err e))
Result-cases (ok a) = inl (a, refl)
Result-cases (err e) = inr (e, refl)

-- A guard that was passed.
pub fail_if-eq-ok {ℓ} :
    {A : Type ℓ} (b : Bool) (x : Error) (m : Result A) {a : A}
    → (fail_if b x >> m) ≡ ok a
    → (b ≡ false) × (m ≡ ok a)
fail_if-eq-ok true e m h = cc
fail_if-eq-ok false e m h = (refl, h)

-- A check that was passed.
pub check-eq-ok {ℓ} :
    {A : Type ℓ} (r : Result (Unit {0})) (m : Result A) {a : A}
    → (r >> m) ≡ ok a
    → (r ≡ ok tt) × (m ≡ ok a)
check-eq-ok (ok tt) m h = (refl, h)
check-eq-ok (err e) m h = cc

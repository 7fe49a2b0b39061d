-- ===== src/Application/Bookkeeping/Wagers.antt =====
-- The books across `finalize` of internal/application/wager_service.go.
use jungle_gaming_backend_te.Prelude.{String, ◌≡◌, refl, subst, Bool, Option, none, some}
use jungle_gaming_backend_te.Prelude.Word.{InInt64}
use jungle_gaming_backend_te.Errors.{Result, ok, err, insufficient_funds}
use jungle_gaming_backend_te.Domain.Wallet.{Wallet, Movement}
use jungle_gaming_backend_te.Domain.Wallet.Movements.{IsMovement}
use jungle_gaming_backend_te.Domain.LedgerEntry.{LedgerDirection}
use jungle_gaming_backend_te.Domain.Transaction.{WagerTransaction, mark_processed}
use jungle_gaming_backend_te.Domain.Transaction.Steps.{mark_processed-made}
use jungle_gaming_backend_te.Application.Environment.{Call}
use jungle_gaming_backend_te.Store.Books.{IsBooked}
use jungle_gaming_backend_te.Application.WagerService.Settle.{
  Origin, complete, finish, finalize, record_movement, announce_movement, movement,
}
use jungle_gaming_backend_te.Application.Bookkeeping.Keeps.{
  Keeps, bind-Keeps, pure-Keeps, insert_outbox-Keeps,
}
use jungle_gaming_backend_te.Application.Bookkeeping.Leads.{
  Leads, kept-Leads, then-Keeps-Leads, lift-Leads, Keeps-into, raise-Leads,
}
use jungle_gaming_backend_te.Application.Bookkeeping.Rejections.{save-Keeps, reject_wager-Keeps}
use jungle_gaming_backend_te.Application.Bookkeeping.Movements.{Changes, movement-Changes}
use jungle_gaming_backend_te.Application.Bookkeeping.Reading.{Holding}
use jungle_gaming_backend_te.Application.Bookkeeping.Recording.{record_movement-IsBooked}

announce_movement-Keeps :
    (call : Call) (parse_iso : String → Bool) (origin : Origin) (direction : Option LedgerDirection)
    (t : WagerTransaction) (v : Movement)
    → Keeps (announce_movement parse_iso call origin direction t v)
unfolding announce_movement
announce_movement-Keeps call parse_iso origin none t v = pure-Keeps tt
announce_movement-Keeps call parse_iso origin (some d) t v = insert_outbox-Keeps _

module _ (parse_iso : String → Bool) (call : Call) (origin : Origin) (t : WagerTransaction)
    (wallet : Wallet) where
  -- What a movement must say of the wallet, where it has a direction.
  abbrev IsFact : Option LedgerDirection → Movement → Type 0
  IsFact direction v =
      (d : LedgerDirection)
      → direction ≡ some d
      → IsMovement parse_iso wallet t.money call.now v
        × Changes d wallet.balance.minor t.money v.after.minor

  done_facts :
      (done : WagerTransaction) (direction : Option LedgerDirection) (v : Movement)
      → mark_processed parse_iso t v.after call.now ≡ ok done
      → IsFact direction v
      → (d : LedgerDirection) → direction ≡ some d
      → IsMovement parse_iso wallet done.money call.now v
        × Changes d wallet.balance.minor done.money v.after.minor
  done_facts done direction v h facts =
      let (_, _, _, _, _, made) = mark_processed-made parse_iso t done v.after call.now h in
      subst
        (λ x.
          (d : LedgerDirection)
          → direction ≡ some d
          → IsMovement parse_iso wallet x.money call.now v
            × Changes d wallet.balance.minor x.money v.after.minor)
        made facts

  recorded-Leads :
      (done : WagerTransaction) (direction : Option LedgerDirection) (v : Movement)
      → mark_processed parse_iso t v.after call.now ≡ ok done
      → IsFact direction v
      → Leads (Holding parse_iso wallet) IsBooked (record_movement parse_iso call direction done v)
  recorded-Leads done direction v is_done facts db u db' (booked, held) h =
      record_movement-IsBooked parse_iso call wallet done v direction db db'
        (done_facts done direction v is_done facts) booked held h

  complete-Leads :
      (direction : Option LedgerDirection) (v : Movement)
      → IsFact direction v
      → Leads (Holding parse_iso wallet) IsBooked (complete parse_iso call origin t direction v)
  unfolding complete
  complete-Leads direction v facts = lift-Leads _ _ _ _ λ done is_done.
      kept-Leads _ _ _ _ (save-Keeps origin done) λ _.
        then-Keeps-Leads _ _ _ _ (recorded-Leads done direction v is_done facts) λ _.
          bind-Keeps _ _ (insert_outbox-Keeps _) λ _.
            bind-Keeps _ _ (announce_movement-Keeps call parse_iso origin direction done v)
              λ _. pure-Keeps _

  pub finish-Leads :
      (r : Result (Option LedgerDirection × Movement))
      → ((direction : Option LedgerDirection) (v : Movement)
          → r ≡ ok (direction, v)
          → IsFact direction v)
      → Leads (Holding parse_iso wallet) IsBooked (finish parse_iso call origin t wallet r)
  unfolding finish
  finish-Leads (ok (direction, v)) facts = complete-Leads direction v (facts direction v refl)
  finish-Leads (err insufficient_funds) facts =
      Keeps-into _ _ _ (λ wallets ledger p. p.0)
        (bind-Keeps _ _ (reject_wager-Keeps parse_iso call origin _ t wallet)
          λ rejected. pure-Keeps _)
  finish-Leads (err e) facts = raise-Leads _ _ e

  pub finalize-Leads :
      (reference : Option WagerTransaction)
      → InInt64 t.money.minor
      → Leads
          (Holding parse_iso wallet)
          IsBooked
          (finalize parse_iso call origin t wallet reference)
  unfolding finalize
  finalize-Leads reference small db x db' (booked, held) h =
      finish-Leads (movement parse_iso call t.kind t.money wallet reference)
        (λ direction v made d is_d.
          movement-Changes parse_iso call t.money wallet held.is_balance small t.kind reference d v
            (rw (← is_d) made))
        db x db' (booked, held) h

-- ===== src/Database/Statements.antt =====
-- The SQL statements of crates/gateway/src as functions of the database, and sending one.
use wave_flow.Database.Tables.{
  Db, Fate, PayoutRow, Server, SqlError, WebhookEvent, World, lost_before, other, lost_after,
  violates, carried_out, violated, ProgramRow,
}
use wave_flow.Shared.Error.{
  Message, WaveFlowError, WaveFlowResult, ok, conflict, database, err, message,
}
use wave_flow.Common.{
  Bool, Option, List, if◌then◌else◌, not, suc, ◌==◌, any, none, ◌&&◌, ◌∷◌, some, ◌||◌, [], false,
  map, ℕ,
}
use wave_flow.Common.Text.{Text, same}
use wave_flow.Common.Int.{ltb_ℤ, pos, same_ℤ, ℤ, in_i64, ◌+ℤ◌, max_ℤ, ◌-ℤ◌}
use wave_flow.Shared.Types.{Uuid}

pub data SqlResult (A : Type 0) : Type 0 where
  done : A → SqlResult A
  failed : SqlError → SqlResult A

-- A statement gives a value and the database after it; one that fails changes nothing.
abbrev pub Statement : Type 0 → Type 0 → Type 0
Statement J A = Db J → SqlResult (A × Db J)

-- A computation of a service.
abbrev pub Query : Type 0 → Type 0 → Type 0
Query J A = World J → WaveFlowResult A × World J

module _ {J A : Type 0} where
  abbrev pub answer : SqlResult (A × Db J) → World J → SqlResult A × World J
  answer (done (a, db)) w = (done a, record w { db = db })
  answer (failed e) w = (failed e, w)

  abbrev pub lose : Message → SqlResult A × World J → SqlResult A × World J
  lose m (_, w) = (failed (other m), w)

  abbrev pub meet : Fate → Statement J A → World J → SqlResult A × World J
  meet carried_out s w = answer (s w.db) w
  meet (lost_before m) s w = (failed (other m), w)
  meet (lost_after m) s w = lose m (answer (s w.db) w)

  -- `execute` and the `fetch` functions of a pool. Other requests may have come first.
  unfoldable pub send : Server J → Statement J A → World J → SqlResult A × World J
  send server s w =
      meet (server.fate w.turn) s (record { db = server.others w.turn w.db; turn = suc w.turn })

  abbrev pub or_error :
      (SqlError → WaveFlowError) → SqlResult A × World J → WaveFlowResult A × World J
  or_error f (done a, w) = (ok a, w)
  or_error f (failed e, w) = (err (f e), w)

  -- `.map_err(f)?`
  unfoldable pub query : Server J → Statement J A → (SqlError → WaveFlowError) → Query J A
  unfolding send
  query server s f w = or_error f (send server s w)

-- `|e| WaveFlowError::Database(e.to_string())`
abbrev pub database_error : SqlError → WaveFlowError
database_error (violates m) = database m
database_error (other m) = database m

-- The closure that answers a violated constraint with a conflict.
abbrev pub conflict_error : Message → SqlError → WaveFlowError
conflict_error c (violates m) = conflict c
conflict_error c (other m) = database m

abbrev pub find {ℓ} : {A : Type ℓ} → (A → Bool) → List A → Option A
find p [] = none
find p (x ∷ xs) = let rest = find p xs in if p x then some x else rest

abbrev pub filter {ℓ} : {A : Type ℓ} → (A → Bool) → List A → List A
filter p [] = []
filter p (x ∷ xs) = let rest = filter p xs in if p x then x ∷ rest else rest

abbrev pub same_program : PayoutRow → PayoutRow → Bool
same_program new row = row.program_id == new.program_id && same_ℤ row.pr_number new.pr_number

abbrev pub same_delivery : Option Text → Option Text → Bool
same_delivery (some a) (some b) = same a b
same_delivery _ _ = false

infixl 5 ◌>>=◌ ◌>>◌
unfoldable pub ◌>>=◌ : {J A B : Type 0} → Query J A → (A → Query J B) → Query J B
◌>>=◌ m f w = let (r, w') = m w in elim r [ ok a ↦ f a w' | err e ↦ (err e, w') ]

unfoldable pub ◌>>◌ : {J A B : Type 0} → Query J A → Query J B → Query J B
unfolding ◌>>=◌
m >> k = m >>= λ _. k

-- A result that needs no statement.
unfoldable pub lift : {J A : Type 0} → WaveFlowResult A → Query J A
lift r w = (r, w)

-- The number of the next statement.
unfoldable pub this_turn : {J : Type 0} → Query J ℕ
this_turn w = (ok w.turn, w)

module _ {J : Type 0} where
  -- A `SELECT` that changes nothing.
  abbrev pub select : {A : Type 0} → (Db J → A) → Statement J A
  select f db = done (f db, db)

  -- The CHECK, FOREIGN KEY, PRIMARY KEY and UNIQUE constraints of `payouts`.
  unfoldable pub payout_fits : PayoutRow → Db J → Bool
  payout_fits new db =
      ltb_ℤ (pos 0) new.points
      && ltb_ℤ (pos 0) new.amount
      && any (λ p. p.id == new.program_id) db.programs
      && not (any (λ row. row.id == new.id || same_program new row) db.payouts)

  unfoldable pub insert_payout : PayoutRow → Statement J (Unit {0})
  unfolding payout_fits
  insert_payout new db =
      if payout_fits new db
      then done (tt, record db { payouts = new ∷ db.payouts })
      else failed violated

  -- The PRIMARY KEY of `webhook_events` and the partial unique index on the delivery id.
  unfoldable pub event_fits : WebhookEvent J → Db J → Bool
  event_fits new db = not (
      any (λ row. row.id == new.id || same_delivery row.delivery_id new.delivery_id)
        db.webhook_events)

  unfoldable pub insert_webhook_event : WebhookEvent J → Statement J (Unit {0})
  unfolding event_fits
  insert_webhook_event new db =
      if event_fits new db
      then done (tt, record db { webhook_events = new ∷ db.webhook_events })
      else failed violated

-- The program after a payout of an amount. PostgreSQL refuses a sum outside of BIGINT.
abbrev pub spend_row : ℤ → ProgramRow → ProgramRow
spend_row amount p = record p {
  milestone_spent = p.milestone_spent +ℤ amount;
  escrow_balance = max_ℤ (p.escrow_balance -ℤ amount) (pos 0);
}

abbrev pub spend_fits : ℤ → ProgramRow → Bool
spend_fits amount p = in_i64 (p.milestone_spent +ℤ amount) && in_i64 (p.escrow_balance -ℤ amount)

unfoldable pub update_spent : {J : Type 0} → ℤ → Uuid → Statement J (Unit {0})
update_spent amount program_id db =
    if any (λ p. p.id == program_id && not (spend_fits amount p)) db.programs
    then failed (other (message "bigint out of range"))
    else done (
      tt,
      record db {
        programs = map (λ p. if p.id == program_id then spend_row amount p else p) db.programs;
      },
    )

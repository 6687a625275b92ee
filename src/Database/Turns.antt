-- ===== src/Database/Turns.antt =====
-- How many statements a computation of a service can send.
use wave_flow.Common.{true, false, Bool, ℕ, if◌then◌else◌, ◌+◌, ◌≤◌, arith, true, ◌≡◌, refl, suc}
use wave_flow.Database.Statements.{
  Query, lift, query, ◌>>=◌, ◌>>◌, send, SqlResult, Statement, or_error, answer, lose, meet, done,
  failed,
}
use wave_flow.Database.Tables.{
  SqlError, World, Server, Db, Fate, lost_before, lost_after, carried_out,
}
use wave_flow.Shared.Error.{WaveFlowError, WaveFlowResult, Message, ok, err}

-- Whatever becomes of the statements, at most so many are sent.
pub record Sends {J A : Type 0} (n : ℕ) (m : Query J A) : Type 0 where
  pub sends : (w : World J) → (m w).1.turn ≤ w.turn + n

module _ {J A : Type 0} where
  pub bind-Sends :
      {B : Type 0} {m : Query J A} {f : A → Query J B} (a b : ℕ)
      → Sends a m
      → ((x : A) → Sends b (f x))
      → Sends (a + b) (m >>= f)
  unfolding ◌>>=◌
  bind-Sends {B} {m} {f} a b hm hf = record { sends = λ w. go w (m w) (hm.sends w) }
    where
      go :
          (w : World J) (x : WaveFlowResult A × World J)
          → (x.1).turn ≤ w.turn + a
          → ((elim (x.0) as (λ _. WaveFlowResult B × World J) [
            | ok a ↦ f a x.1
            | err e ↦ (err e, x.1)
          ]).1
            ).turn
            ≤ w.turn + (a + b)
      go w (ok y, v) h = let h' = (hf y).sends v in omega (arith, h, h')
      go w (err e, v) h = omega (arith, h)

  pub then-Sends :
      {B : Type 0} {m : Query J A} {k : Query J B} (a b : ℕ)
      → Sends a m
      → Sends b k
      → Sends (a + b) (m >> k)
  unfolding ◌>>◌
  then-Sends a b hm hk = bind-Sends a b hm (λ _. hk)

  pub lift-Sends : (r : WaveFlowResult A) → Sends {J = J} 0 (lift r)
  unfolding lift
  lift-Sends r = record { sends = λ w. omega arith }

  answer_turn :
      (f : SqlError → WaveFlowError) (r : SqlResult (A × Db J)) (w : World J)
      → (or_error f (answer r w)).1.turn ≡ w.turn
  answer_turn f (done (a, db)) w = refl
  answer_turn f (failed e) w = refl

  lose_turn :
      (f : SqlError → WaveFlowError) (m : Message) (r : SqlResult (A × Db J)) (w : World J)
      → (or_error f (lose m (answer r w))).1.turn ≡ w.turn
  lose_turn f m (done (a, db)) w = refl
  lose_turn f m (failed e) w = refl

  pub query-Sends :
      (server : Server J) (s : Statement J A) (f : SqlError → WaveFlowError)
      → Sends 1 (query server s f)
  unfolding query send
  query-Sends server s f = record {
    sends = λ w.
        let e =
          go (record { db = server.others w.turn w.db; turn = suc w.turn }) (server.fate w.turn) in
        omega (arith, e);
  }
    where
      go : (w : World J) (x : Fate) → (or_error f (meet x s w)).1.turn ≡ w.turn
      go w carried_out = answer_turn f (s w.db) w
      go w (lost_before m) = refl
      go w (lost_after m) = lose_turn f m (s w.db) w

  pub weaken-Sends : {m : Query J A} (a b : ℕ) → a ≤ b → Sends a m → Sends b m
  weaken-Sends a b le h = record { sends = λ w. let h' = h.sends w in omega (arith, le, h') }

  pub if-Sends :
      (c : Bool) {m k : Query J A} (n : ℕ) → Sends n m → Sends n k → Sends n (if c then m else k)
  if-Sends true n hm hk = hm
  if-Sends false n hm hk = hk

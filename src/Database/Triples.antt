-- ===== src/Database/Triples.antt =====
-- Rules for what a computation of statements keeps true of the database, whatever becomes of each
-- statement, and for the values it can return.
use wave_flow.Database.Statements.{
  ◌>>=◌, ◌>>◌, Query, done, query, send, SqlResult, Statement, failed, lift, or_error, answer, lose,
  meet, select, this_turn,
}
use mathlib.Core.Path.{subst}
use wave_flow.Common.{true, false, Bool, if◌then◌else◌, ap, ◌≡◌, refl, suc, ◌≢◌, arith, ℕ}
use wave_flow.Database.Tables.{
  Db, SqlError, World, Server, Fate, lost_before, lost_after, carried_out,
}
use wave_flow.Shared.Error.{WaveFlowResult, WaveFlowError, Message, ok, err}

module _ {J A : Type 0} where
  -- The end of a computation: the invariant, and for a value what is asked of it.
  abbrev pub Safe : (Db J → Type 0) → (A → Type 0) → WaveFlowResult A × World J → Type 0
  Safe P R (ok a, w) = P w.db × R a
  Safe P R (err e, w) = P w.db

-- The other requests keep a property of the tables.
abbrev pub IsQuiet : {J : Type 0} → Server J → (Db J → Type 0) → Type 0
IsQuiet {J} server P = (n : ℕ) (db : Db J) → P db → P (server.others n db)

-- From a database with `P` the computation ends in one with `P`, and a value that it returns has `R`.
pub record Keeps {J A : Type 0} (P : Db J → Type 0) (m : Query J A) (R : A → Type 0) : Type 0 where
  pub keeps : (w : World J) → P w.db → Safe P R (m w)

module _ {J A : Type 0} {P : Db J → Type 0} where
  pub bind-Keeps :
      {B : Type 0} {m : Query J A} {f : A → Query J B} {Q : A → Type 0} {R : B → Type 0}
      → Keeps P m Q
      → ((a : A) → Q a → Keeps P (f a) R)
      → Keeps P (m >>= f) R
  unfolding ◌>>=◌
  bind-Keeps {B} {m} {f} {Q} {R} hm hf = record { keeps = λ w p. go (m w) (hm.keeps w p) }
    where
      go :
          (x : WaveFlowResult A × World J)
          → Safe P Q x
          → Safe P R (elim (x.0) [ ok a ↦ f a x.1 | err e ↦ (err e, x.1) ])
      go (ok a, w') q = (hf a q.1).keeps w' q.0
      go (err e, w') q = q

  pub then-Keeps :
      {B : Type 0} {m : Query J A} {k : Query J B} {Q : A → Type 0} {R : B → Type 0}
      → Keeps P m Q
      → ((a : A) → Q a → Keeps P k R)
      → Keeps P (m >> k) R
  unfolding ◌>>◌
  then-Keeps hm hk = bind-Keeps hm hk

  pub lift-Keeps :
      {R : A → Type 0} (r : WaveFlowResult A) → ((a : A) → r ≡ ok a → R a) → Keeps P (lift r) R
  unfolding lift
  lift-Keeps (ok a) h = record { keeps = λ w p. (p, h a refl) }
  lift-Keeps (err e) h = record { keeps = λ w p. p }

  pub return-Keeps : {R : A → Type 0} (a : A) → R a → Keeps P (lift (ok a)) R
  unfolding lift
  return-Keeps a h = record { keeps = λ w p. (p, h) }

  Safe-answer :
      (R : A → Type 0) (f : SqlError → WaveFlowError) (r : SqlResult (A × Db J)) (w : World J)
      → ((a : A) (db : Db J) → r ≡ done (a, db) → P db × R a)
      → P w.db
      → Safe P R (or_error f (answer r w))
  Safe-answer R f (done (a, db)) w h p = h a db refl
  Safe-answer R f (failed e) w h p = p

  Safe-lose :
      (R : A → Type 0) (f : SqlError → WaveFlowError) (m : Message) (r : SqlResult (A × Db J))
      (w : World J)
      → ((a : A) (db : Db J) → r ≡ done (a, db) → P db × R a)
      → P w.db
      → Safe P R (or_error f (lose m (answer r w)))
  Safe-lose R f m (done (a, db)) w h p = (h a db refl).0
  Safe-lose R f m (failed e) w h p = p

  -- A statement may be carried out although its answer is lost.
  pub query_at :
      {R : A → Type 0} (server : Server J) (s : Statement J A) (f : SqlError → WaveFlowError)
      (w : World J)
      → P (server.others w.turn w.db)
      → ((a : A) (db' : Db J) → s (server.others w.turn w.db) ≡ done (a, db') → P db' × R a)
      → Safe P R (query server s f w)
  unfolding query send
  query_at {R} server s f w p step =
      go (record { db = server.others w.turn w.db; turn = suc w.turn }) p step (server.fate w.turn)
    where
      go :
          (w : World J)
          → P w.db
          → ((a : A) (db' : Db J) → s w.db ≡ done (a, db') → P db' × R a)
          → (x : Fate) → Safe P R (or_error f (meet x s w))
      go w p step carried_out = Safe-answer R f (s w.db) w step p
      go w p step (lost_before m) = p
      go w p step (lost_after m) = Safe-lose R f m (s w.db) w step p

  pub query-Keeps :
      {R : A → Type 0} (server : Server J)
      → IsQuiet server P
      → (s : Statement J A) (f : SqlError → WaveFlowError)
      → ((db : Db J) (a : A) (db' : Db J) → P db → s db ≡ done (a, db') → P db' × R a)
      → Keeps P (query server s f) R
  query-Keeps {R} server quiet s f step = record {
    keeps = λ w p.
        let p' = quiet w.turn w.db p in query_at server s f w p' (λ a db' e. step _ a db' p' e);
  }

module _ {J A : Type 0} (P : Db J → Type 0) (R : A → Type 0) where
  -- The tables at the end.
  pub Safe-db : (x : WaveFlowResult A × World J) → Safe {A = A} P R x → P ((x.1).db)
  Safe-db (ok a, w) q = q.0
  Safe-db (err e, w) q = q

pub end-Keeps :
    {J A : Type 0} {P : Db J → Type 0} {R : A → Type 0} {m : Query J A}
    → Keeps P m R
    → (w : World J) → P w.db
    → P ((m w).1.db)
end-Keeps {P} {R} {m} h w p = Safe-db P R (m w) (h.keeps w p)

module _ {J A : Type 0} where
  abbrev db_or : Db J → SqlResult (A × Db J) → Db J
  db_or db (done (_, db')) = db'
  db_or db (failed _) = db

  abbrev value_or : A → SqlResult (A × Db J) → A
  value_or a (done (a', _)) = a'
  value_or a (failed _) = a

  pub done_parts :
      {a a' : A} {db db' : Db J}
      → ◌≡◌ {A = SqlResult (A × Db J)} (done (a, db)) (done (a', db'))
      → (a ≡ a') × (db ≡ db')
  done_parts {a} {a'} {db} {db'} h = (ap (value_or a) h, ap (db_or db) h)

  pub done_failed :
      {a : A} {db : Db J} {e : SqlError} → ◌≢◌ {A = SqlResult (A × Db J)} (failed e) (done (a, db))
  done_failed h = ground arith

abbrev pub Any : {A : Type 0} → A → Type 0
Any _ = Unit

pub turn-Keeps : {J : Type 0} {P : Db J → Type 0} → Keeps P this_turn Any
unfolding this_turn
turn-Keeps = record { keeps = λ w p. (p, tt) }

module _ {J A : Type 0} {P : Db J → Type 0} where
  -- A `SELECT` leaves the database alone.
  pub select-Keeps :
      (server : Server J)
      → IsQuiet server P
      → (g : Db J → A) (f : SqlError → WaveFlowError) → Keeps P (query server (select g) f) Any
  select-Keeps server quiet g f =
      query-Keeps server quiet (select g) f (λ db a db' p e. (subst P (done_parts e).1 p, tt))

  -- What a `SELECT` gives was in the tables at a moment when the property held.
  pub select-Seen :
      (server : Server J)
      → IsQuiet server P
      → (g : Db J → A) (f : SqlError → WaveFlowError)
      → Keeps P (query server (select g) f) (λ a. (db : Db J) × P db × (g db ≡ a))
  select-Seen server quiet g f =
      query-Keeps server quiet (select g) f
        (λ db a db' p e. (subst P (done_parts e).1 p, (db, p, (done_parts e).0)))

  pub weaken-Keeps :
      {m : Query J A} {Q R : A → Type 0} → Keeps P m Q → ((a : A) → Q a → R a) → Keeps P m R
  weaken-Keeps {m} {Q} {R} h step = record { keeps = λ w p. go (m w) (h.keeps w p) }
    where
      go : (x : WaveFlowResult A × World J) → Safe {A = A} P Q x → Safe {A = A} P R x
      go (ok a, w) q = (q.0, step a q.1)
      go (err e, w) q = q

  pub if-Keeps :
      (b : Bool) {m k : Query J A} {R : A → Type 0}
      → Keeps P m R
      → Keeps P k R
      → Keeps P (if b then m else k) R
  if-Keeps true hm hk = hm
  if-Keeps false hm hk = hk

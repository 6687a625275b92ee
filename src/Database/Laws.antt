-- ===== src/Database/Laws.antt =====
-- Inversion of the statements that write, and of a statement that succeeds.
use wave_flow.Database.Statements.{
  ◌>>=◌, ◌>>◌, insert_payout, insert_webhook_event, query, update_spent, send, Statement, done,
  event_fits, payout_fits, SqlResult, or_error, spend_fits, answer, failed, lose, meet, Query, lift,
  select, spend_row, find,
}
use wave_flow.Common.{
  refl, ◌≡◌, Bool-cases, any, true, ◌==◌, ◌∷◌, inl, ◌&&◌, not, inr, suc, arith, Bool, false, map,
  if◌then◌else◌, ℕ, List, map_option, [],
}
use mathlib.Core.Path.{ap}
use wave_flow.Database.Tables.{
  PayoutRow, WebhookEvent, Db, Server, SqlError, World, Fate, lost_before, lost_after, carried_out,
  ProgramRow, ContributorRow,
}
use wave_flow.Common.Int.{ℤ}
use wave_flow.Shared.Types.{Uuid}
use wave_flow.Shared.Error.{WaveFlowError, ok, Message, WaveFlowResult, err, fail_if}
use wave_flow.Database.Triples.{done_parts, done_failed}
use wave_flow.Database.Registration.{
  insert_program, program_fits, insert_contributor, update_programs, contributor_fits,
}

module _ {J : Type 0} where
  pub insert_payout_done :
      (new : PayoutRow) (db db' : Db J)
      → insert_payout new db ≡ done (tt, db')
      → (payout_fits new db ≡ true) × (record db { payouts = new ∷ db.payouts } ≡ db')
  unfolding insert_payout
  insert_payout_done new db db' h = elim (Bool-cases (payout_fits new db)) [
    | inl e ↦ (e, (done_parts (rw e at h)).1)
    | inr e ↦ absurd (done_failed (rw e at h))
  ]

  pub insert_webhook_event_done :
      (new : WebhookEvent J) (db db' : Db J)
      → insert_webhook_event new db ≡ done (tt, db')
      → (event_fits new db ≡ true) × (record db { webhook_events = new ∷ db.webhook_events } ≡ db')
  unfolding insert_webhook_event
  insert_webhook_event_done new db db' h = elim (Bool-cases (event_fits new db)) [
    | inl e ↦ (e, (done_parts (rw e at h)).1)
    | inr e ↦ absurd (done_failed (rw e at h))
  ]

  -- The rows of the program are changed, and nothing else.
  pub update_spent_done :
      (amount : ℤ) (id : Uuid) (db db' : Db J)
      → update_spent amount id db ≡ done (tt, db')
      → (any (λ p. p.id == id && not (spend_fits amount p)) db.programs ≡ false)
        × (record db {
          programs = map (λ p. if p.id == id then spend_row amount p else p) db.programs;
        }
            ≡ db')
  unfolding update_spent
  update_spent_done amount id db db' h =
      elim (Bool-cases (any (λ p. p.id == id && not (spend_fits amount p)) db.programs)) [
        | inl e ↦ absurd (done_failed (rw e at h))
        | inr e ↦ (e, (done_parts (rw e at h)).1)
      ]

  -- A statement whose answer arrives was carried out.
  pub query_ok :
      {A : Type 0} (server : Server J) (s : Statement J A) (f : SqlError → WaveFlowError)
      (w w' : World J) (a : A)
      → query server s f w ≡ (ok a, w')
      → s (server.others w.turn w.db) ≡ done (a, w'.db)
  unfolding query send
  query_ok {A} server s f w w' a h = go (server.fate w.turn) h
    where
      from :
          (r : SqlResult (A × Db J))
          → or_error f (answer r (record { db = server.others w.turn w.db; turn = suc w.turn }))
            ≡ (ok a, w')
          → r ≡ done (a, w'.db)
      from (done (b, db)) h = ground arith
      from (failed e) h = absurd (ground arith)

      lost :
          (m : Message) (r : SqlResult (A × Db J))
          → or_error f
              (lose m (answer r (record { db = server.others w.turn w.db; turn = suc w.turn })))
            ≡ (ok a, w')
          → r ≡ done (a, w'.db)
      lost m (done (b, db)) h = absurd (ground arith)
      lost m (failed e) h = absurd (ground arith)

      go :
          (x : Fate)
          → or_error f (meet x s (record { db = server.others w.turn w.db; turn = suc w.turn }))
            ≡ (ok a, w')
          → s (server.others w.turn w.db) ≡ done (a, w'.db)
      go carried_out h = from (s (server.others w.turn w.db)) h
      go (lost_before m) h = absurd (ground arith)
      go (lost_after m) h = lost m (s (server.others w.turn w.db)) h

module _ {J : Type 0} where
  -- Inversion of a chain that succeeds.
  pub bind_ok :
      {A B : Type 0} (m : Query J A) (f : A → Query J B) (w w' : World J) (b : B)
      → (m >>= f) w ≡ (ok b, w')
      → (a : A) × (v : World J) × (m w ≡ (ok a, v)) × (f a v ≡ (ok b, w'))
  unfolding ◌>>=◌
  bind_ok {A} {B} m f w w' b h = go (m w) h
    where
      go :
          (x : WaveFlowResult A × World J)
          → (elim (x.0) as (λ _. WaveFlowResult B × World J) [
            | ok a ↦ f a x.1
            | err e ↦ (err e, x.1)
          ])
            ≡ (ok b, w')
          → (a : A) × (v : World J) × (x ≡ (ok a, v)) × (f a v ≡ (ok b, w'))
      go (ok a, v) h = (a, v, refl, h)
      go (err e, v) h = absurd (ground arith)

  -- A test that a computation has passed is dropped.
  pub passed :
      {B : Type 0} (c : Bool) (e : WaveFlowError) (k : Query J B) (w w' : World J) (b : B)
      → (lift (fail_if c e) >> k) w ≡ (ok b, w')
      → k w ≡ (ok b, w')
  unfolding ◌>>=◌ ◌>>◌ lift
  passed false e k w w' b h = h
  passed true e k w w' b h = absurd (ground arith)

  pub insert_program_done :
      (new : ProgramRow) (db db' : Db J)
      → insert_program new db ≡ done (tt, db')
      → (program_fits new db ≡ true) × (record db { programs = new ∷ db.programs } ≡ db')
  unfolding insert_program
  insert_program_done new db db' h = elim (Bool-cases (program_fits new db)) [
    | inl e ↦ (e, (done_parts (rw e at h)).1)
    | inr e ↦ absurd (done_failed (rw e at h))
  ]

  -- A `SELECT` that is carried out gives its value.
  pub select_carried_out :
      {A : Type 0} (server : Server J) (g : Db J → A) (f : SqlError → WaveFlowError) (w : World J)
      → server.fate w.turn ≡ carried_out
      → query server (select g) f w ≡ (
        ok (g (server.others w.turn w.db)),
        record { db = server.others w.turn w.db; turn = suc w.turn },
      )
  unfolding query send
  select_carried_out server g f w h = rw h refl

  pub bind_value :
      {A B : Type 0} (m : Query J A) (f : A → Query J B) (w v : World J) (a : A)
      → m w ≡ (ok a, v)
      → (m >>= f) w ≡ f a v
  unfolding ◌>>=◌
  bind_value {A} {B} m f w v a h =
      ap
        (λ (x : WaveFlowResult A × World J). elim (x.0) as (λ _. WaveFlowResult B × World J) [
          | ok a ↦ f a x.1
          | err e ↦ (err e, x.1)
        ])
        h

  pub lift_value : {A : Type 0} (r : WaveFlowResult A) (w : World J) → lift r w ≡ (r, w)
  unfolding lift
  lift_value r w = refl

  -- A result that is a value is passed on.
  pub lift_bind :
      {A B : Type 0} (r : WaveFlowResult A) (f : A → Query J B) (w : World J) (a : A)
      → r ≡ ok a
      → (lift r >>= f) w ≡ f a w
  unfolding lift
  lift_bind r f w a h = bind_value (lift r) f w w a (ap (λ r. (r, w)) h)

  pub then_value :
      {A B : Type 0} (m : Query J A) (k : Query J B) (w v : World J) (a : A)
      → m w ≡ (ok a, v)
      → (m >> k) w ≡ k v
  unfolding ◌>>◌
  then_value m k w v a h = bind_value m (λ _. k) w v a h

  pub insert_contributor_done :
      (new : ContributorRow) (db db' : Db J)
      → insert_contributor new db ≡ done (tt, db')
      → (contributor_fits new db ≡ true)
        × (record db { contributors = new ∷ db.contributors } ≡ db')
  unfolding insert_contributor
  insert_contributor_done new db db' h = elim (Bool-cases (contributor_fits new db)) [
    | inl e ↦ (e, (done_parts (rw e at h)).1)
    | inr e ↦ absurd (done_failed (rw e at h))
  ]

  pub update_programs_done :
      (which : ProgramRow → Bool) (change : ProgramRow → ProgramRow) (n : ℕ) (db db' : Db J)
      → update_programs which change db ≡ done (n, db')
      → record db { programs = map (λ p. if which p then change p else p) db.programs } ≡ db'
  unfolding update_programs
  update_programs_done which change n db db' h = (done_parts h).1

-- A change that a test does not see leaves what is found.
pub find-map :
    {A : Type 0} (q : A → Bool) (f : A → A)
    → ((a : A) → q (f a) ≡ q a)
    → (rows : List A) → find q (map f rows) ≡ map_option f (find q rows)
find-map q f h [] = refl
find-map q f h (a ∷ rows) = elim (Bool-cases (q a)) [
  | inl e ↦ rw (h a, e) refl
  | inr e ↦ rw (h a, e) (find-map q f h rows)
]

-- ===== src/Gateway/Reliable.antt =====
-- crates/gateway/src/attestation.rs: the queries on a server that carries out every statement, while no
use wave_flow.Database.Tables.{
  Db, Server, ProgramRow, World, ContributorRow, PayoutRow, carried_out, SqlError,
}
use wave_flow.Common.{ℕ, Option, ◌≡◌, some, is_some, map_option, suc, ◌==◌, ◌&&◌, refl}
use wave_flow.Database.Statements.{
  query, ◌>>=◌, lift, send, Statement, find, done, select, database_error,
}
use wave_flow.Gateway.Attestation.{
  fetch_payout_id, load_program_status, load_reward_per_point, payout_exists,
  resolve_contributor_address, resolve_program_id,
}
use wave_flow.Shared.Types.{Uuid}
use wave_flow.Common.Text.{Text}
use wave_flow.Shared.Error.{WaveFlowError, ok, ok_or}
use wave_flow.Gateway.Course.{active_program, program_of, contributor_of}
use wave_flow.Common.Int.{as_u64, same_ℤ, clamp_i64}
use wave_flow.Database.Laws.{bind_value}

-- other request runs.

pub record IsReliable {J : Type 0} (server : Server J) : Type 0 where
  pub carried : (n : ℕ) → server.fate n ≡ carried_out
  pub alone : (n : ℕ) (db : Db J) → server.others n db ≡ db

abbrev pub at : {J : Type 0} → Db J → ℕ → World J
at db turn = record { db = db; turn = turn }

-- The payout of the pull request, as `fetch_payout_id` selects it.
abbrev pub payout_of : {J : Type 0} → Uuid → ℕ → Db J → Option PayoutRow
payout_of id n db = find (λ p. p.program_id == id && same_ℤ p.pr_number (clamp_i64 n)) db.payouts

module _ {J : Type 0} (server : Server J) (reliable : IsReliable server) where
  pub query_runs :
      {A : Type 0} (s : Statement J A) (f : SqlError → WaveFlowError) (db db' : Db J) (turn : ℕ)
      (a : A)
      → s db ≡ done (a, db')
      → query server s f (at db turn) ≡ (ok a, at db' (suc turn))
  unfolding query send
  query_runs s f db db' turn a h = rw (reliable.carried turn, reliable.alone turn db, h) refl

  read_runs :
      {A B : Type 0} (look : Db J → Option A) (e : WaveFlowError) (value_of : A → B) (db : Db J)
      (turn : ℕ) (a : A)
      → look db ≡ some a
      → (query server (select look) database_error >>= λ row.
            lift (ok_or row e) >>= λ a. lift (ok (value_of a)))
          (at db turn)
        ≡ (ok (value_of a), at db (suc turn))
  unfolding ◌>>=◌ lift
  read_runs look e value_of db turn a h =
      bind_value (query server (select look) database_error)
        (λ row. lift (ok_or row e) >>= λ a. lift (ok (value_of a))) (at db turn) (at db (suc turn))
        (some a) (query_runs (select look) database_error db db turn (some a) (rw h refl))

  pub resolve_program_id_runs :
      (repo : Text) (db : Db J) (turn : ℕ) (program : ProgramRow)
      → active_program repo db ≡ some program
      → resolve_program_id server repo (at db turn)
        ≡ (ok (program.id, as_u64 program.on_chain_program_id), at db (suc turn))
  unfolding resolve_program_id
  resolve_program_id_runs repo db turn program h =
      read_runs (active_program repo) _ (λ p. (p.id, as_u64 p.on_chain_program_id)) db turn program
        h

  pub load_program_status_runs :
      (id : Uuid) (db : Db J) (turn : ℕ) (program : ProgramRow)
      → program_of id db ≡ some program
      → load_program_status server id (at db turn) ≡ (ok program.status, at db (suc turn))
  unfolding load_program_status
  load_program_status_runs id db turn program h =
      read_runs (program_of id) _ (λ p. p.status) db turn program h

  pub load_reward_per_point_runs :
      (id : Uuid) (db : Db J) (turn : ℕ) (program : ProgramRow)
      → program_of id db ≡ some program
      → load_reward_per_point server id (at db turn)
        ≡ (ok program.reward_per_point, at db (suc turn))
  unfolding load_reward_per_point
  load_reward_per_point_runs id db turn program h =
      read_runs (program_of id) _ (λ p. p.reward_per_point) db turn program h

  pub resolve_contributor_address_runs :
      (id : Uuid) (name : Text) (db : Db J) (turn : ℕ) (contributor : ContributorRow)
      → contributor_of id name db ≡ some contributor
      → resolve_contributor_address server id name (at db turn)
        ≡ (ok contributor.stellar_address, at db (suc turn))
  unfolding resolve_contributor_address
  resolve_contributor_address_runs id name db turn contributor h =
      read_runs (contributor_of id name) _ (λ c. c.stellar_address) db turn contributor h

  pub fetch_payout_id_runs :
      (id : Uuid) (n : ℕ) (db : Db J) (turn : ℕ) (o : Option PayoutRow)
      → payout_of id n db ≡ o
      → fetch_payout_id server id n (at db turn) ≡ (ok (map_option (λ p. p.id) o), at db (suc turn))
  unfolding fetch_payout_id lift
  fetch_payout_id_runs id n db turn o h =
      bind_value (query server (select (payout_of id n)) database_error)
        (λ row. lift (ok (map_option (λ p. p.id) row))) (at db turn) (at db (suc turn)) o
        (query_runs (select (payout_of id n)) database_error db db turn o (rw h refl))

  pub payout_exists_runs :
      (id : Uuid) (n : ℕ) (db : Db J) (turn : ℕ) (o : Option PayoutRow)
      → payout_of id n db ≡ o
      → payout_exists server id n (at db turn)
        ≡ (ok (is_some (map_option (λ p. p.id) o)), at db (suc turn))
  unfolding payout_exists lift
  payout_exists_runs id n db turn o h =
      bind_value (fetch_payout_id server id n) (λ id. lift (ok (is_some id))) (at db turn)
        (at db (suc turn)) (map_option (λ p. p.id) o) (fetch_payout_id_runs id n db turn o h)

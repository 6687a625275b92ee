-- ===== src/Api/Reading.antt =====
-- crates/api/src/routes/admin.rs and mod.rs: a program that the admin route has stored, read back by the public one.
use wave_flow.Database.Statements.{
  ◌>>=◌, ◌>>◌, this_turn, lift, query, conflict_error, find, database_error, Query, select,
}
use wave_flow.Common.{
  refl, ℕ, ◌≡◌, ◌∷◌, if◌then◌else◌, ltb, ◌^◌, ◌-◌, ap, arith, sym, ◌∙◌, [], ◌==◌, some, ==_refl,
  Bool-cases, inl, inr, Option, suc,
}
use wave_flow.Database.Tables.{Server, World, ProgramRow, carried_out}
use wave_flow.Api.Admin.{CreateProgramRequest, create_program, store_program}
use wave_flow.Shared.Types.{Uuid, active}
use wave_flow.Common.Int.{clamp_i64, pos}
use wave_flow.Shared.Error.{ok, WaveFlowResult, word}
use wave_flow.Common.Text.{codes, same}
use wave_flow.Database.Laws.{
  passed, bind_ok, insert_program_done, query_ok, select_carried_out, bind_value, lift_value,
}
use wave_flow.Api.Public.{get_program, program_record, read_status}
use wave_flow.Database.Registration.{insert_program}

-- The row of a request.
abbrev row_of : {J : Type 0} → Server J → CreateProgramRequest → ℕ → ProgramRow
row_of server body turn = record {
  id = server.new_v4 turn;
  on_chain_program_id = clamp_i64 body.on_chain_program_id;
  github_repo = body.github_repo;
  maintainer_address = body.maintainer_address;
  reward_per_point = body.reward_per_point;
  escrow_balance = pos 0;
  milestone_cap = body.milestone_cap;
  milestone_spent = pos 0;
  status = codes "active";
  created_at = server.now turn;
}

returned_id :
    {J : Type 0} (a b : Uuid) (v w : World J)
    → ◌≡◌ {A = WaveFlowResult Uuid × World J} (ok a, v) (ok b, w)
    → b ≡ a
returned_id a b v w h = ground arith

recorded :
    {J : Type 0} (server : Server J) (body : CreateProgramRequest) (turn : ℕ)
    → program_record (row_of server body turn) ≡ record {
      id = server.new_v4 turn;
      on_chain_program_id =
          (if ltb body.on_chain_program_id (2 ^ 63) then body.on_chain_program_id else 2 ^ 63 - 1);
      github_repo = body.github_repo;
      maintainer_address = body.maintainer_address;
      reward_per_point = body.reward_per_point;
      escrow_balance = pos 0;
      milestone_cap = body.milestone_cap;
      milestone_spent = pos 0;
      status = active;
      created_at = server.now turn;
    }
unfolding program_record read_status same
recorded server body turn = elim (Bool-cases (ltb body.on_chain_program_id (2 ^ 63))) [
  | inl e ↦ rw e refl
  | inr e ↦ rw e refl
]

module _ {J : Type 0} (server : Server J) where
  -- A creation that succeeds has put the row of the request first.
  stored :
      (body : CreateProgramRequest) (w w' : World J) (id : Uuid)
      → store_program server body w ≡ (ok id, w')
      → (id ≡ server.new_v4 w.turn)
        × (row_of server body w.turn ∷ (server.others w.turn w.db).programs ≡ w'.db.programs)
  unfolding store_program this_turn ◌>>=◌ ◌>>◌ lift
  stored body w w' id h =
      let (u, v, sent, returned) =
        bind_ok
          (query server (insert_program (row_of server body w.turn)) (
            conflict_error
              (word (codes "program already exists for repo ") ∷ word body.github_repo ∷ [])))
          (λ _. lift (ok (server.new_v4 w.turn))) w w' id h in
      let inserted =
        (insert_program_done (row_of server body w.turn) (server.others w.turn w.db) v.db
          (query_ok server (insert_program (row_of server body w.turn)) _ w v u sent)).1 in
      let same : v.db ≡ w'.db = ap (λ x. (x.1).db) returned in
      (returned_id _ _ _ _ returned, ap (λ d. d.programs) (inserted ∙ same))

  created :
      (body : CreateProgramRequest) (w w' : World J) (id : Uuid)
      → create_program server body w ≡ (ok id, w')
      → store_program server body w ≡ (ok id, w')
  unfolding create_program
  created body w w' id h = passed _ _ _ w w' id (passed _ _ _ w w' id (passed _ _ _ w w' id h))

  found :
      (id : Uuid) (w : World J) (row : ProgramRow)
      → server.fate w.turn ≡ carried_out
      → find (λ p. p.id == id) (server.others w.turn w.db).programs ≡ some row
      → (get_program server id w).0 ≡ ok (program_record row)
  unfolding get_program
  found id w row carried here =
      let rows : Query J (Option ProgramRow) =
        query server (select (λ db. find (λ p. p.id == id) db.programs)) database_error in
      let after : World J = record { db = server.others w.turn w.db; turn = suc w.turn } in
      let sent : rows w ≡ (ok (some row), after) =
        select_carried_out server _ _ w carried ∙ ap (λ o. (ok o, after)) here in
      ap (λ x. x.0)
        (bind_value rows _ w after (some row) sent
          ∙ bind_value (lift (ok row)) (λ p. lift (ok (program_record p))) after after row
              (lift_value (ok row) after)
          ∙ lift_value (ok (program_record row)) after)

  -- A program that was created is read back by the public route, where the read is carried out and finds the
  -- programs as the creation left them: the fields of the request, with a number on the chain above 2 ^ 63 - 1 cut down to it, an empty escrow, nothing
  -- spent, and the status active.
  pub get_program-create_program :
      (body : CreateProgramRequest) (w w' : World J) (id : Uuid)
      → create_program server body w ≡ (ok id, w')
      → server.fate w'.turn ≡ carried_out
      → (server.others w'.turn w'.db).programs ≡ w'.db.programs
      → (get_program server id w').0
        ≡ ok (record {
          id = id;
          on_chain_program_id =
              (if ltb body.on_chain_program_id (2 ^ 63)
                then body.on_chain_program_id
                else 2 ^ 63 - 1);
          github_repo = body.github_repo;
          maintainer_address = body.maintainer_address;
          reward_per_point = body.reward_per_point;
          escrow_balance = pos 0;
          milestone_cap = body.milestone_cap;
          milestone_spent = pos 0;
          status = active;
          created_at = server.now w.turn;
        })
  unfolding get_program
  get_program-create_program body w w' id h carried alone =
      let (named, inserted) = stored body w w' id (created body w w' id h) in
      let here : find (λ p. p.id == id) (server.others w'.turn w'.db).programs
          ≡ some (row_of server body w.turn) =
        rw (alone, sym inserted, named, ==_refl (server.new_v4 w.turn)) refl in
      rw named (
        rw named at (found id w' (row_of server body w.turn) carried here)
        ∙ ap (λ r. ok r) (recorded server body w.turn))

-- ===== src/Api/Requests.antt =====
-- crates/api/src/routes/admin.rs: every request to the admin routes, and what it keeps of the tables.
use wave_flow.Database.Statements.{◌>>=◌, Query, lift, database_error, query}
use wave_flow.Common.{refl, inl, inr, ◌≡◌, arith, Bool}
use wave_flow.Api.Admin.{
  CreateProgramRequest, create_program, pause_program, register_contributor, resume_program,
  update_ratio, RegisterContributorRequest, store_program,
}
use wave_flow.Common.Int.{ℤ, leb_ℤ, pos, ◌<ℤ◌}
use wave_flow.Database.Tables.{Server, Db, World, ProgramRow}
use wave_flow.Shared.Types.{Uuid}
use wave_flow.Shared.Error.{WaveFlowError, fail_if, ok}
use wave_flow.Database.Triples.{
  Keeps, Any, bind-Keeps, then-Keeps, lift-Keeps, return-Keeps, select-Keeps, turn-Keeps, IsQuiet,
  end-Keeps, query-Keeps,
}
use wave_flow.Api.Registry.{IsRegistry, IsRegistry-IsStable}
use wave_flow.Database.Writes.{
  IsPeaceful, IsStable, stable-IsQuiet, IsHarmless, insert_contributor-Write, insert_program-Write,
  update_programs-Write,
}
use wave_flow.Database.Registration.{insert_contributor, insert_program, update_programs}

-- A request to one of the five admin routes.
pub data AdminRequest : Type 0 where
  create_program_request : CreateProgramRequest → AdminRequest
  pause_program_request : Uuid → AdminRequest
  resume_program_request : Uuid → AdminRequest
  update_ratio_request : Uuid → ℤ → AdminRequest
  register_contributor_request : RegisterContributorRequest → AdminRequest

abbrev drop_value : {J A : Type 0} → Query J A → Query J (Unit {0})
drop_value m = m >>= λ _. lift (ok tt)

positive_ratio :
    {u : Unit {0}} (ratio : ℤ) (e : WaveFlowError)
    → fail_if (leb_ℤ ratio (pos 0)) e ≡ ok u
    → pos 0 <ℤ ratio
positive_ratio ratio e h = ground arith

module _ {J : Type 0} (server : Server J) where
  unfoldable pub handle : AdminRequest → Query J (Unit {0})
  handle (create_program_request body) = drop_value (create_program server body)
  handle (pause_program_request id) = drop_value (pause_program server id)
  handle (resume_program_request id) = drop_value (resume_program server id)
  handle (update_ratio_request id ratio) = drop_value (update_ratio server id ratio)
  handle (register_contributor_request body) = drop_value (register_contributor server body)

module _ {J : Type 0} {P : Db J → Type 0} (stable : IsStable P) (server : Server J)
    (quiet : IsQuiet server P) where
  drop-Keeps : {A : Type 0} {m : Query J A} → Keeps P m Any → Keeps P (drop_value m) Any
  drop-Keeps h = bind-Keeps h (λ _ _. return-Keeps _ tt)

  updated-Keeps :
      (which : ProgramRow → Bool) (change : ProgramRow → ProgramRow)
      → IsHarmless change
      → Keeps P (query server (update_programs which change) database_error) Any
  updated-Keeps which change h =
      query-Keeps server quiet (update_programs which change) database_error (λ db n db' p e.
        (stable.kept db db' (update_programs-Write which change n db db' h e) p, tt))

  pub create_program-Keeps :
      (body : CreateProgramRequest) → Keeps P (create_program server body) Any
  unfolding create_program store_program
  create_program-Keeps body = then-Keeps (lift-Keeps {R = Any} _ (λ _ _. tt)) (λ _ _.
      then-Keeps (lift-Keeps {R = Any} _ (λ _ _. tt)) (λ _ _.
        then-Keeps (lift-Keeps {R = Any} _ (λ _ _. tt)) (λ _ _. bind-Keeps turn-Keeps (λ turn _.
          then-Keeps
            (query-Keeps server quiet (insert_program _) _
              (λ db _ db' p e. (stable.kept db db' (insert_program-Write _ db db' refl e) p, tt)))
            (λ _ _. return-Keeps _ tt)))))

  pub pause_program-Keeps : (id : Uuid) → Keeps P (pause_program server id) Any
  unfolding pause_program
  pause_program-Keeps id =
      bind-Keeps (updated-Keeps _ _ (λ p. (refl, refl, refl, λ v. (v.0, inr refl))))
        (λ n _. then-Keeps (lift-Keeps {R = Any} _ (λ _ _. tt)) (λ _ _. return-Keeps _ tt))

  pub resume_program-Keeps : (id : Uuid) → Keeps P (resume_program server id) Any
  unfolding resume_program
  resume_program-Keeps id =
      bind-Keeps (updated-Keeps _ _ (λ p. (refl, refl, refl, λ v. (v.0, inl refl))))
        (λ n _. then-Keeps (lift-Keeps {R = Any} _ (λ _ _. tt)) (λ _ _. return-Keeps _ tt))

  pub update_ratio-Keeps : (id : Uuid) (ratio : ℤ) → Keeps P (update_ratio server id ratio) Any
  unfolding update_ratio
  update_ratio-Keeps id ratio =
      then-Keeps (lift-Keeps {R = λ _. pos 0 <ℤ ratio} _ (λ _ e. positive_ratio ratio _ e))
        (λ _ positive.
          bind-Keeps (updated-Keeps _ _ (λ p. (refl, refl, refl, λ v. (positive, v.1))))
            (λ n _. then-Keeps (lift-Keeps {R = Any} _ (λ _ _. tt)) (λ _ _. return-Keeps _ tt)))

  pub register_contributor-Keeps :
      (body : RegisterContributorRequest) → Keeps P (register_contributor server body) Any
  unfolding register_contributor
  register_contributor-Keeps body = then-Keeps (lift-Keeps {R = Any} _ (λ _ _. tt)) (λ _ _.
      then-Keeps (lift-Keeps {R = Any} _ (λ _ _. tt)) (λ _ _.
        bind-Keeps (select-Keeps server quiet _ database_error) (λ row _.
          then-Keeps (lift-Keeps {R = Any} _ (λ _ _. tt)) (λ _ _. bind-Keeps turn-Keeps (λ turn _.
            then-Keeps
              (query-Keeps server quiet (insert_contributor _) _
                (λ db _ db' p e. (stable.kept db db' (insert_contributor-Write _ db db' e) p, tt)))
              (λ _ _. return-Keeps _ tt))))))

  handle-Keeps : (r : AdminRequest) → Keeps P (handle server r) Any
  unfolding handle
  handle-Keeps (create_program_request body) = drop-Keeps (create_program-Keeps body)
  handle-Keeps (pause_program_request id) = drop-Keeps (pause_program-Keeps id)
  handle-Keeps (resume_program_request id) = drop-Keeps (resume_program-Keeps id)
  handle-Keeps (update_ratio_request id ratio) = drop-Keeps (update_ratio-Keeps id ratio)
  handle-Keeps (register_contributor_request body) = drop-Keeps (register_contributor-Keeps body)

  -- Every property that the writes and the other requests keep.
  handle-kept : (r : AdminRequest) (w : World J) → P w.db → P ((handle server r w).1.db)
  handle-kept r w p = end-Keeps (handle-Keeps r) w p

-- A request to an admin route keeps the registry, whatever becomes of each of its statements and whatever
-- writes of other requests fall between them: no two programs share an id, a number on the chain or
-- a repository, every ratio is positive, every status is active or paused, and no contributor is
-- registered twice with a program.
pub handle-IsRegistry :
    {J : Type 0} (server : Server J) (r : AdminRequest) (w : World J)
    → IsPeaceful server
    → IsRegistry w.db
    → IsRegistry ((handle server r w).1.db)
handle-IsRegistry server r w peace p =
    handle-kept IsRegistry-IsStable server (stable-IsQuiet IsRegistry-IsStable peace) r w p

-- ===== src/TrainedArtifactStore/Replay.antt =====
-- Complete of internal/data/postgres/trained_artifact_store.go: what a result stands for, and what
-- a repeated call returns.
use mathlib.Core.Path.{subst}
use ani_model_service.Prelude.{
  ℕ, String, ◌≡◌, refl, sym, ap, ◌∙◌, ok, err, some, List, ◌∷◌, [], arith,
}
use ani_model_service.Errors.{Res, Error}
use ani_model_service.Database.Table.{find, find-holds, find-update}
use ani_model_service.Database.Rows.{RegistrationRow, RegistrationStatus}
use ani_model_service.Database.Exec.{Db, Exec, lift, attempt, ◌>>=◌, Libs}
use ani_model_service.Database.After.{After}
use ani_model_service.Database.Registrations
use ani_model_service.Database.Registrations.{is_registration}
use ani_model_service.TrainedArtifactStore.{
  RegistrationResult, registration_result, parse_registration_ids,
}
use ani_model_service.TrainedArtifactStore.Complete
use ani_model_service.TrainedArtifactStore.Complete.{Fresh, complete_row, settled}
use ani_model_service.TrainedArtifactStore.Committing.{Completed, complete_row-After}
use ani_model_service.TrainedArtifactStore.Moves.{IsKeyed}
use ani_model_service.TrainedArtifactStore.Calls.{Call, run}
use ani_model_service.TrainedArtifactStore.Terminal.{run-IsKeyed, run-settled}

abbrev IsReadyRow : ℕ → ℕ → Db → RegistrationRow → Type 0
IsReadyRow tenant id db r =
    (find (is_registration tenant id) db.registrations ≡ some r)
    × (r.status ≡ RegistrationStatus.ready)

-- The row of a commit is in the tables, and it is ready.
Completed-ready :
    (fresh : Fresh) (tenant id : ℕ) (db : Db) (r : RegistrationRow) (after : Db)
    → Completed fresh tenant id db r after
    → IsReadyRow tenant id after r
Completed-ready fresh tenant id db r after (Completed.already e h same) =
    (subst (λ (d : Db). find (is_registration tenant id) d.registrations ≡ some r) (sym same) e, h)
Completed-ready fresh tenant id db r after (Completed.publishes s model e u p) =
    let h = find-holds (is_registration tenant id) db.registrations s e in
    let f = Registrations.published db.clock model fresh.version in
    (
      rw
          (
            p.registrations,
            p.result,
            find-update (is_registration tenant id) (is_registration s.tenant_id s.id) f
                (λ a k. refl) db.registrations,
            e,
          )
          (ground arith),
      rw p.result refl,
    )

module _ (libs : Libs) (text_of : Error → String) (tenant id : String) where
  -- A result of Complete describes a ready row of the tables it leaves.
  settled_ok :
      (fresh : Fresh) (t i : ℕ) (db : Db) (o : Res RegistrationRow × Db) (res : RegistrationResult)
      → After (Completed fresh t i db) o
      → (settled libs text_of tenant id o.0 o.1).0 ≡ ok res
      → (r : RegistrationRow) × IsReadyRow t i (settled libs text_of tenant id o.0 o.1).1 r
        × (res ≡ registration_result libs r)
  settled_ok fresh t i db (ok r, d) res a h = (r, Completed-ready fresh t i db r d a, cc)
  settled_ok fresh t i db (err e, d) res a h = absurd (cc)

  abbrev complete_from : Fresh → Res (ℕ × ℕ) → Exec RegistrationResult
  complete_from fresh p =
      lift p >>= λ ids. attempt (complete_row fresh ids.0 ids.1) >>= settled libs text_of tenant id

  completed_ok :
      (fresh : Fresh) (p : Res (ℕ × ℕ)) (db : Db) (res : RegistrationResult)
      → (complete_from fresh p db).0 ≡ ok res
      → (t : ℕ) × (i : ℕ) × (r : RegistrationRow) × (p ≡ ok (t, i))
        × IsReadyRow t i (complete_from fresh p db).1 r
        × (res ≡ registration_result libs r)
  completed_ok fresh (err e) db res h = absurd (cc)
  completed_ok fresh (ok (t, i)) db res h =
      let (r, ready, e) =
        settled_ok fresh t i db (complete_row fresh t i db) res (complete_row-After fresh t i db)
          h in
      (t, i, r, refl, ready, e)

  -- A ready registration is returned as it is.
  ready_again :
      (fresh : Fresh) (t i : ℕ) (db : Db) (r : RegistrationRow)
      → IsReadyRow t i db r
      → complete_row fresh t i db ≡ (ok r, db)
  unfolding complete_row Registrations.get_registration
  ready_again fresh t i db r (e, h) = rw (e, h) refl

  from_row :
      (r : RegistrationRow) (db : Db) (o : Res RegistrationRow × Db)
      → o ≡ (ok r, db)
      → settled libs text_of tenant id o.0 o.1 ≡ (ok (registration_result libs r), db)
  from_row r db o e = rw e refl

  from_ready :
      (fresh : Fresh) (t i : ℕ) (db : Db) (r : RegistrationRow)
      → IsReadyRow t i db r
      → complete_from fresh (ok (t, i)) db ≡ (ok (registration_result libs r), db)
  from_ready fresh t i db r ready =
      from_row r db (complete_row fresh t i db) (ready_again fresh t i db r ready)

  -- After a Complete that returned a result, any later Complete of the same registration, under
  -- other new ids and after any calls of the store, returns the same result and writes nothing.
  pub complete-complete :
      (fresh fresh' : Fresh) (db : Db) (res : RegistrationResult) (calls : List Call)
      → IsKeyed db.registrations
      → (Complete.complete libs text_of fresh tenant id db).0 ≡ ok res
      → let later = run libs text_of calls (Complete.complete libs text_of fresh tenant id db).1 in
        Complete.complete libs text_of fresh' tenant id later ≡ (ok res, later)
  unfolding Complete.complete
  complete-complete fresh fresh' db res calls keyed h =
      let (t, i, r, p, (e, ready), same) =
        completed_ok fresh (parse_registration_ids libs tenant id) db res h in
      let after = (Complete.complete libs text_of fresh tenant id db).1 in
      let kept =
        run-settled libs text_of calls after t i r
          (run-IsKeyed libs text_of (Call.complete fresh tenant id ∷ []) db keyed) e
          (rw ready refl) in
      ap (λ q. complete_from fresh' q (run libs text_of calls after)) p
      ∙ (from_ready fresh' t i (run libs text_of calls after) r (kept, ready)
          ∙ ap (λ x. (ok x, run libs text_of calls after)) (sym same))

-- ===== src/TrainedArtifactStore/Terminal.antt =====
-- A registration that is ready, failed or aborted stays as it is, and Complete is idempotent
-- (internal/data/postgres/trained_artifact_store.go).
use mathlib.Core.Path.{subst}
use ani_model_service.Prelude.{
  ℕ, String, ◌≡◌, refl, sym, true, false, some, List, [], ◌∷◌, arith, Bool-cases, inl, inr,
}
use ani_model_service.Errors.{Error}
use ani_model_service.Database.Table.{
  find, count, count-update, count_of_any, any_weaken, find-count, find-update,
}
use ani_model_service.Database.Rows.{RegistrationRow, RegistrationStatus, is_unsettled}
use ani_model_service.Database.Exec.{Db, Libs}
use ani_model_service.Database.Registrations
use ani_model_service.Database.Registrations.{is_registration, registration_clashes}
use ani_model_service.TrainedArtifactStore.Moves
use ani_model_service.TrainedArtifactStore.Moves.{Move, Change, Changes, IsKeyed, keep, write, add}
use ani_model_service.TrainedArtifactStore.Calls.{Call, step, run, step-Changes}

Move-key :
    (now tenant id : ℕ) (r s : RegistrationRow)
    → Move now r s
    → is_registration tenant id s ≡ is_registration tenant id r
Move-key now tenant id r s (Moves.uploads h e) = ground arith
Move-key now tenant id r s (Moves.fails message h e) = ground arith
Move-key now tenant id r s (Moves.aborts reason h e) = ground arith
Move-key now tenant id r s (Moves.publishes model version h e) = ground arith

-- Only a pending or uploaded registration moves.
Move-unsettled : (now : ℕ) (r s : RegistrationRow) → Move now r s → is_unsettled r.status ≡ true
Move-unsettled now r s (Moves.uploads h e) = pending_unsettled r.status h
  where
    pending_unsettled :
        (status : RegistrationStatus)
        → Registrations.is_pending status ≡ true
        → is_unsettled status ≡ true
    pending_unsettled RegistrationStatus.pending h = refl
    pending_unsettled _ h = cc
Move-unsettled now r s (Moves.fails message h e) = h
Move-unsettled now r s (Moves.aborts reason h e) = h
Move-unsettled now r s (Moves.publishes model version h e) = h

module _ (now : ℕ) where
  Change-IsKeyed :
      (rows rows' : List RegistrationRow) → Change now rows rows' → IsKeyed rows → IsKeyed rows'
  unfolding count
  Change-IsKeyed rows rows' (keep e) k tenant id = subst IsKeyed (sym e) k tenant id
  Change-IsKeyed rows rows' (write p f e moves) k tenant id =
      rw
        (
          e,
          count-update (is_registration tenant id) p f
              (λ r h. Move-key now tenant id r (f r) (moves r h)) rows,
        )
        (k tenant id)
  Change-IsKeyed rows rows' (add r e clash new) k tenant id =
      rw e (ground (arith, k tenant id, unused))
    where
      unused : is_registration tenant id r ≡ true → count (is_registration tenant id) rows ≡ 0
      unused h = count_of_any (is_registration tenant id) rows (
          any_weaken (is_registration tenant id) (registration_clashes r) (λ s i. ground arith) rows
            clash)

  Change-settled :
      (rows rows' : List RegistrationRow) (tenant id : ℕ) (r : RegistrationRow)
      → Change now rows rows'
      → find (is_registration tenant id) rows ≡ some r
      → is_unsettled r.status ≡ false
      → find (is_registration tenant id) rows' ≡ some r
  unfolding find
  Change-settled rows rows' tenant id r (keep e) h settled = rw e h
  Change-settled rows rows' tenant id r (write p f e moves) h settled =
      rw
        (
          e,
          find-update (is_registration tenant id) p f
              (λ r h. Move-key now tenant id r (f r) (moves r h)) rows,
          h,
        )
        (elim (Bool-cases (p r)) [
          | inl i ↦ absurd (cc (Move-unsettled now r (f r) (moves r i)))
          | inr i ↦ rw i refl
        ])
  Change-settled rows rows' tenant id r (add s e clash new) h settled =
      rw e (elim (Bool-cases (is_registration tenant id s)) [
        | inr i ↦ rw i h
        | inl i ↦
            let free =
              any_weaken (is_registration tenant id) (registration_clashes s) (λ a k. ground arith)
                rows clash in
            absurd (
              cc (
                find-count (is_registration tenant id) rows
                    (count_of_any (is_registration tenant id) rows free),
                h,
              ))
      ])

module _ (libs : Libs) (text_of : Error → String) where
  step-IsKeyed :
      (c : Call) (db : Db)
      → IsKeyed db.registrations
      → IsKeyed (step libs text_of c db).registrations
  step-IsKeyed c db k =
      Change-IsKeyed db.clock db.registrations (step libs text_of c db).registrations
        (step-Changes libs text_of c db k) k

  pub run-IsKeyed :
      (calls : List Call) (db : Db)
      → IsKeyed db.registrations
      → IsKeyed (run libs text_of calls db).registrations
  run-IsKeyed [] db k = k
  run-IsKeyed (c ∷ calls) db k = run-IsKeyed calls (step libs text_of c db) (step-IsKeyed c db k)

  -- A registration that is ready, failed or aborted keeps every column through any sequence of
  -- calls of the store, from tables with one row of each registration id.
  pub run-settled :
      (calls : List Call) (db : Db) (tenant id : ℕ) (r : RegistrationRow)
      → IsKeyed db.registrations
      → find (is_registration tenant id) db.registrations ≡ some r
      → is_unsettled r.status ≡ false
      → find (is_registration tenant id) (run libs text_of calls db).registrations ≡ some r
  run-settled [] db tenant id r k h settled = h
  run-settled (c ∷ calls) db tenant id r k h settled =
      run-settled calls (step libs text_of c db) tenant id r (step-IsKeyed c db k)
        (Change-settled db.clock db.registrations (step libs text_of c db).registrations tenant id r
          (step-Changes libs text_of c db k) h settled)
        settled

-- ===== src/TrainedArtifactStore/Moves.antt =====
-- The state machine of a registration, and the calls of TrainedArtifactStore
-- (internal/data/postgres/trained_artifact_store.go) as steps of it.
use ani_model_service.Prelude.{
  ℕ, ◌≤◌, String, ◌≡◌, refl, Bool, true, false, ◌==◌, ok, err, Option, none, some, List, ◌∷◌, any,
  arith, Bool-cases, inl, inr, if◌then◌else◌, ltb,
}
use ani_model_service.Errors.{Res, Error}
use ani_model_service.Database.Table.{find, update, count}
use ani_model_service.Database.Rows.{RegistrationRow, RegistrationStatus, is_unsettled}
use ani_model_service.Database.Exec.{Db, Exec, pure, fail, lift, attempt, row, ◌>>=◌, Libs}
use ani_model_service.Database.Keeps.{lift_cases, bind_keeps}
use ani_model_service.Database.Registrations
use ani_model_service.Database.Registrations.{is_registration, is_pending, registration_clashes}
use ani_model_service.TrainedArtifactStore
use ani_model_service.TrainedArtifactStore.{Registration, RegistrationResult}

-- One change of one registration at the time `now`.
pub data Move (now : ℕ) (r s : RegistrationRow) : Type 0 where
  uploads : is_pending r.status ≡ true → s ≡ Registrations.uploaded now r → Move now r s
  fails :
      (message : String)
      → is_unsettled r.status ≡ true
      → s ≡ Registrations.failed now message r
      → Move now r s
  aborts :
      (reason : String)
      → is_unsettled r.status ≡ true
      → s ≡ Registrations.aborted now reason r
      → Move now r s
  publishes :
      (model version : ℕ)
      → is_unsettled r.status ≡ true
      → s ≡ Registrations.published now model version r
      → Move now r s

-- What a call does to the registrations: nothing, a move of the rows that it selects, or a new
-- pending row whose keys no other row has.
pub data Change (now : ℕ) (rows rows' : List RegistrationRow) : Type 0 where
  keep : rows' ≡ rows → Change now rows rows'
  write :
      (p : RegistrationRow → Bool) (f : RegistrationRow → RegistrationRow)
      → rows' ≡ update p f rows
      → ((r : RegistrationRow) → p r ≡ true → Move now r (f r))
      → Change now rows rows'
  add :
      (r : RegistrationRow)
      → rows' ≡ r ∷ rows
      → any (registration_clashes r) rows ≡ false
      → r.status ≡ RegistrationStatus.pending
      → Change now rows rows'

-- What a call of the store does to all tables: the registrations change as above.
abbrev pub Changes : Db → Db → Type 0
Changes before after = Change before.clock before.registrations after.registrations

abbrev pub IsKeyed : List RegistrationRow → Type 0
IsKeyed rows = (tenant id : ℕ) → count (is_registration tenant id) rows ≤ 1

module _ (libs : Libs) where
  pub get-state :
      (tenant id : String) (db : Db) → (TrainedArtifactStore.get libs tenant id db).1 ≡ db
  unfolding TrainedArtifactStore.get Registrations.get_registration
  get-state tenant id db =
      lift_cases (λ d. d ≡ db) (TrainedArtifactStore.parse_registration_ids libs tenant id) _ db
        refl λ ids. read (find (is_registration ids.0 ids.1) db.registrations)
    where
      read :
          (o : Option RegistrationRow)
          → ((TrainedArtifactStore.or_not_found (lift (row o)) >>= λ r.
                pure (TrainedArtifactStore.scan_trained_artifact libs r))
              db).1
            ≡ db
      read none = refl
      read (some r) = refl

  refused-state : (r : Res Registration) (db : Db) → (TrainedArtifactStore.refused libs r db).1 ≡ db
  refused-state (ok r) db = refl
  refused-state (err Error.registration_not_found) db = refl
  refused-state (err _) db = refl

module _ (libs : Libs) (db : Db) (tenant id : String) where
  pub mark_uploaded-Changes : Changes db (TrainedArtifactStore.mark_uploaded libs tenant id db).1
  unfolding TrainedArtifactStore.mark_uploaded Registrations.upload_registration
  mark_uploaded-Changes =
      lift_cases (Changes db) (TrainedArtifactStore.parse_registration_ids libs tenant id) _ db
        (keep refl)
        λ ids.
          bind_keeps (Changes db) (Registrations.upload_registration ids.0 ids.1) after_upload db
            (write _ (Registrations.uploaded db.clock) refl λ r h. uploads (ground arith) refl)
            λ n d c. elim (Bool-cases (ltb 0 n)) [
              | inl e ↦ rw e c
              | inr e ↦ rw e (
                  bind_keeps (Changes db) (TrainedArtifactStore.get libs tenant id) after_read d
                    (rw (get-state libs tenant id d) c)
                    λ r d' c'. elim (Bool-cases (TrainedArtifactStore.already_uploaded r.status)) [
                      | inl e ↦ rw e c'
                      | inr e ↦ rw e c'
                    ])
            ]
    where
      after_read : Registration → Exec (Unit {0})
      after_read current =
          if TrainedArtifactStore.already_uploaded current.status
          then pure tt
          else fail Error.registration_terminal

      after_upload : ℕ → Exec (Unit {0})
      after_upload n =
          if ltb 0 n then pure tt else (TrainedArtifactStore.get libs tenant id >>= after_read)

  pub fail_registration-Changes :
      (message : String)
      → Changes db (TrainedArtifactStore.fail_registration libs tenant id message db).1
  unfolding TrainedArtifactStore.fail_registration Registrations.fail_registration
  fail_registration-Changes message =
      lift_cases (Changes db) (TrainedArtifactStore.parse_registration_ids libs tenant id) _ db
        (keep refl)
        λ ids.
          write _ (Registrations.failed db.clock message) refl
            λ r h. fails message (ground arith) refl

  pub abort-Changes :
      (reason : String) → Changes db (TrainedArtifactStore.abort libs tenant id reason db).1
  unfolding TrainedArtifactStore.abort Registrations.abort_registration
  abort-Changes reason =
      lift_cases (Changes db) (TrainedArtifactStore.parse_registration_ids libs tenant id) _ db
        (keep refl)
        λ ids.
          bind_keeps (Changes db) (Registrations.abort_registration ids.0 ids.1 reason) after_abort
            db
            (write _ (Registrations.aborted db.clock reason) refl
              λ r h. aborts reason (ground arith) refl)
            λ n d c. elim (Bool-cases (n == 0)) [
              | inr e ↦ rw e c
              | inl e ↦ rw e (
                  bind_keeps (Changes db) (attempt (TrainedArtifactStore.get libs tenant id))
                    (TrainedArtifactStore.refused libs) d (rw (get-state libs tenant id d) c)
                    λ r d' c'. rw (refused-state libs r d') c')
            ]
    where
      after_abort : ℕ → Exec (Unit {0})
      after_abort n =
          if n == 0
          then (attempt (TrainedArtifactStore.get libs tenant id)
              >>= TrainedArtifactStore.refused libs)
          else pure tt

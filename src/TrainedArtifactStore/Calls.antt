-- ===== src/TrainedArtifactStore/Calls.antt =====
-- Complete and Prepare of internal/data/postgres/trained_artifact_store.go as moves, and every
-- call of the store as a step.
use mathlib.Core.Path.{subst}
use ani_model_service.Prelude.{
  ℕ, String, ◌≡◌, refl, sym, ap, ◌∙◌, true, ◌&&◌, str_eq, ok, err, some, List, [], ◌∷◌, any, arith,
  Bool-cases, inl, inr,
}
use ani_model_service.Errors.{Res, Error}
use ani_model_service.Database.Table.{find, update, find-holds}
use ani_model_service.Database.Table.Keyed.{update_keyed}
use ani_model_service.Database.Rows.{RegistrationRow, RegistrationStatus, is_unsettled}
use ani_model_service.Database.Exec.{Db, fail, attempt, ◌>>=◌, Libs}
use ani_model_service.Database.Keeps.{lift_cases, bind_keeps}
use ani_model_service.Database.After.{After, settle_err}
use ani_model_service.Database.Registrations
use ani_model_service.Database.Registrations.{is_registration, registration_clashes}
use ani_model_service.TrainedArtifactStore
use ani_model_service.TrainedArtifactStore.{Registration, RegistrationResult}
use ani_model_service.TrainedArtifactStore.Complete
use ani_model_service.TrainedArtifactStore.Complete.{Fresh, complete_row}
use ani_model_service.TrainedArtifactStore.Prepare
use ani_model_service.TrainedArtifactStore.Committing.{Completed, complete_row-After}
use ani_model_service.TrainedArtifactStore.Moves
use ani_model_service.TrainedArtifactStore.Moves.{Move, Change, Changes, IsKeyed, keep, write, add}

module _ (fresh : Fresh) (tenant id : ℕ) (db : Db) where
  pub complete_row_err :
      (e : Error)
      → (complete_row fresh tenant id db).0 ≡ err e
      → (complete_row fresh tenant id db).1 ≡ db
  unfolding complete_row
  complete_row_err e h =
      settle_err db
        ((TrainedArtifactStore.or_not_found (Registrations.get_registration tenant id) >>= λ s.
            Complete.complete_session fresh s s.status)
          db)
        e h

  -- The row that Complete publishes is the only row of its key.
  pub published_rows :
      (s : RegistrationRow) (f : RegistrationRow → RegistrationRow)
      → IsKeyed db.registrations
      → find (is_registration tenant id) db.registrations ≡ some s
      → is_unsettled s.status ≡ true
      → update (is_registration s.tenant_id s.id) f db.registrations
        ≡ update (λ r. is_registration tenant id r && is_unsettled r.status) f db.registrations
  published_rows s f keyed e u =
      let h = find-holds (is_registration tenant id) db.registrations s e in
      let h₀ : s.tenant_id ≡ tenant = ground arith in
      let h₁ : s.id ≡ id = ground arith in
      rw (h₀, h₁)
        (sym (
          update_keyed (is_registration tenant id) (λ r. is_unsettled r.status) f db.registrations s
            (keyed tenant id) e u))

  Completed-Changes :
      (r : RegistrationRow) (after : Db)
      → IsKeyed db.registrations
      → Completed fresh tenant id db r after
      → Changes db after
  Completed-Changes r after keyed (Completed.already e h same) =
      keep (ap (λ (d : Db). d.registrations) same)
  Completed-Changes r after keyed (Completed.publishes s model e u p) =
      write (λ r. Registrations.is_registration tenant id r && is_unsettled r.status)
        (Registrations.published db.clock model fresh.version)
        (p.registrations
          ∙ published_rows s (Registrations.published db.clock model fresh.version) keyed e u)
        λ r h. Moves.publishes model fresh.version (ground arith) refl

module _ (libs : Libs) (text_of : Error → String) (fresh : Fresh) (tenant id : String) where
  settled-Changes :
      (t i : ℕ) (db : Db)
      → IsKeyed db.registrations
      → (o : Res RegistrationRow × Db) → After (Completed fresh t i db) o
      → ((e : Error) → o.0 ≡ err e → o.1 ≡ db)
      → Changes db (Complete.settled libs text_of tenant id o.0 o.1).1
  settled-Changes t i db keyed (ok r, d) a k = Completed-Changes fresh t i db r d keyed a
  settled-Changes t i db keyed (err e, d) a k =
      subst (λ d. Changes db (Complete.settled libs text_of tenant id (err e) d).1) (sym (k e refl))
        (bind_keeps {B = RegistrationResult} (Changes db)
          (attempt (TrainedArtifactStore.fail_registration libs tenant id (text_of e)))
          (λ ignored. fail e) db (Moves.fail_registration-Changes libs db tenant id (text_of e))
          λ r d c. c)

  pub complete-Changes :
      (db : Db)
      → IsKeyed db.registrations
      → Changes db (Complete.complete libs text_of fresh tenant id db).1
  unfolding Complete.complete
  complete-Changes db keyed =
      lift_cases (Changes db) (TrainedArtifactStore.parse_registration_ids libs tenant id) _ db
        (keep refl)
        λ ids.
          settled-Changes ids.0 ids.1 db keyed (complete_row fresh ids.0 ids.1 db)
            (complete_row-After fresh ids.0 ids.1 db) (complete_row_err fresh ids.0 ids.1 db)

module _ (libs : Libs) where
  inserted-state : (r : Res RegistrationRow) (db : Db) → (Prepare.inserted libs r db).1 ≡ db
  inserted-state (ok r) db = refl
  inserted-state (err Error.unique_violation) db = refl
  inserted-state (err _) db = refl

  insert_row-Changes :
      (r : RegistrationRow) (db : Db)
      → r.status ≡ RegistrationStatus.pending
      → Changes db (Registrations.insert_registration r db).1
  unfolding Registrations.insert_registration
  insert_row-Changes r db h = elim (Bool-cases (Registrations.registration_checks r)) [
    | inr e ↦ rw e (keep refl)
    | inl e ↦ elim (Bool-cases (any (registration_clashes r) db.registrations)) [
      | inl c ↦ rw (e, c) (keep refl)
      | inr c ↦ elim (Bool-cases (Registrations.registration_refers db r)) [
        | inr f ↦ rw (e, c, f) (keep refl)
        | inl f ↦ rw (e, c, f) (add r refl c h)
      ]
    ]
  ]

  insert-Changes :
      (tenant id : ℕ) (r : Registration) (db : Db)
      → Changes db (Prepare.insert libs tenant id r db).1
  insert-Changes tenant id r db =
      lift_cases (Changes db) (Prepare.optional_id libs "target_model_id" r.target_model_id) _ db
        (keep refl)
        λ target.
          lift_cases (Changes db)
            (Prepare.optional_id libs "source_model_version_id" r.source_model_version_id) _ db
            (keep refl)
            λ source.
              let new = Prepare.new_registration libs db.clock tenant id target source r in
              bind_keeps (Changes db) (attempt (Registrations.insert_registration new))
                (Prepare.inserted libs) db (insert_row-Changes new db refl)
                λ made d c. rw (inserted-state made d) c

  found-Changes :
      (tenant id : ℕ) (r : Registration) (o : Res RegistrationRow) (db : Db)
      → Changes db (Prepare.found libs (λ d. d) tenant id r o db).1
  found-Changes tenant id r (ok s) db =
      elim (Bool-cases (str_eq s.request_fingerprint r.request_fingerprint)) [
        | inl e ↦ rw e (keep refl)
        | inr e ↦ rw e (keep refl)
      ]
  found-Changes tenant id r (err Error.no_rows) db = insert-Changes tenant id r db
  found-Changes tenant id r (err _) db = keep refl

  pub prepare_once-Changes :
      (r : Registration) (db : Db) → Changes db (Prepare.prepare_once libs (λ d. d) r db).1
  unfolding Prepare.prepare_once Registrations.get_registration_by_key
  prepare_once-Changes r db =
      lift_cases (Changes db) (TrainedArtifactStore.parse_registration_ids libs r.tenant_id r.id) _
        db (keep refl) λ ids. found-Changes ids.0 ids.1 r _ db

-- The calls of the store. Each pass of Prepare is a call of its own: one that only meets a unique
-- index changes nothing.
pub data Call : Type 0 where
  prepare : Registration → Call
  mark_uploaded : String → String → Call
  complete : Fresh → String → String → Call
  fail_registration : String → String → String → Call
  abort : String → String → String → Call

module _ (libs : Libs) (text_of : Error → String) where
  abbrev pub step : Call → Db → Db
  step (prepare r) db = (Prepare.prepare_once libs (λ d. d) r db).1
  step (mark_uploaded tenant id) db = (TrainedArtifactStore.mark_uploaded libs tenant id db).1
  step (complete fresh tenant id) db = (Complete.complete libs text_of fresh tenant id db).1
  step (fail_registration tenant id message) db =
      (TrainedArtifactStore.fail_registration libs tenant id message db).1
  step (abort tenant id reason) db = (TrainedArtifactStore.abort libs tenant id reason db).1

  abbrev pub run : List Call → Db → Db
  run [] db = db
  run (c ∷ calls) db = run calls (step c db)

  -- With one row of each registration id, every call of the store, whatever it returns, leaves the
  -- registrations alone, moves selected rows along the state machine, or adds a pending row whose
  -- id and idempotency key no row of the tenant has.
  pub step-Changes : (c : Call) (db : Db) → IsKeyed db.registrations → Changes db (step c db)
  step-Changes (prepare r) db keyed = prepare_once-Changes libs r db
  step-Changes (mark_uploaded tenant id) db keyed = Moves.mark_uploaded-Changes libs db tenant id
  step-Changes (complete fresh tenant id) db keyed =
      complete-Changes libs text_of fresh tenant id db keyed
  step-Changes (fail_registration tenant id message) db keyed =
      Moves.fail_registration-Changes libs db tenant id message
  step-Changes (abort tenant id reason) db keyed = Moves.abort-Changes libs db tenant id reason

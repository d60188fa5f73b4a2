-- ===== src/TrainedArtifactStore/Repeating.antt =====
-- A repeated Prepare of internal/data/postgres/trained_artifact_store.go.
use mathlib.Core.Path.{subst}
use ani_model_service.Prelude.{
  ℕ, zero, suc, ◌≡◌, refl, sym, ap, ◌∙◌, true, str_eq, ok, err, Option, none, some, Bool-cases, inl,
  inr,
}
use ani_model_service.Errors.{Res}
use ani_model_service.Database.Table.{find}
use ani_model_service.Database.Rows.{RegistrationRow}
use ani_model_service.Database.Exec.{Db, row, Libs}
use ani_model_service.Database.Registrations
use ani_model_service.Database.Registrations.{has_key}
use ani_model_service.TrainedArtifactStore.{
  Registration, parse_registration_ids, scan_trained_artifact,
}
use ani_model_service.TrainedArtifactStore.Prepare.{found, prepare_once, prepare, repeated}
use ani_model_service.TrainedArtifactStore.Preparing.{IsFor, insert-some}

module _ (libs : Libs) (r : Registration) (t i : ℕ) where
  found-some :
      (between : Db → Db) (o : Option RegistrationRow) (db : Db) (q : Registration)
      → find (has_key t r.idempotency_key) db.registrations ≡ o
      → (found libs between t i r (row o) db).0 ≡ ok (some q)
      → IsFor libs r t i q (found libs between t i r (row o) db).1
  found-some between none db q f e = insert-some libs r t i (between db) q e
  found-some between (some s) db q f e =
      elim (Bool-cases (str_eq s.request_fingerprint r.request_fingerprint)) [
        | inl g ↦ rw g (s, f, g, cc (rw g at e))
        | inr g ↦ absurd (cc (rw g at e))
      ]

  once-some :
      (between : Db → Db) (db : Db) (q : Registration)
      → parse_registration_ids libs r.tenant_id r.id ≡ ok (t, i)
      → (prepare_once libs between r db).0 ≡ ok (some q)
      → IsFor libs r t i q (prepare_once libs between r db).1
  unfolding prepare_once Registrations.get_registration_by_key
  once-some between db q p =
      rw p (found-some between (find (has_key t r.idempotency_key) db.registrations) db q refl)

  found_again :
      (between : Db → Db) (s : RegistrationRow) (db : Db)
      → str_eq s.request_fingerprint r.request_fingerprint ≡ true
      → found libs between t i r (ok s) db ≡ (ok (some (scan_trained_artifact libs s)), db)
  found_again between s db g = rw g refl

  once_again :
      (between : Db → Db) (db : Db) (q : Registration)
      → parse_registration_ids libs r.tenant_id r.id ≡ ok (t, i)
      → IsFor libs r t i q db
      → prepare_once libs between r db ≡ (ok (some q), db)
  unfolding prepare_once Registrations.get_registration_by_key
  once_again between db q p (s, f, g, e) =
      rw (p, f) (found_again between s db g ∙ ap (λ x. (ok (some x), db)) (sym e))

  repeated-some :
      (again : Db → Option (Res Registration × Db)) (o : Res (Option Registration) × Db)
      (q : Registration) (d : Db)
      → ((d' : Db) → again d' ≡ some (ok q, d) → IsFor libs r t i q d)
      → (o.0 ≡ ok (some q) → IsFor libs r t i q o.1)
      → repeated libs again o ≡ some (ok q, d)
      → IsFor libs r t i q d
  repeated-some again (ok (some x), d') q d k h e =
      let same : d' ≡ d = cc in subst (λ d. IsFor libs r t i q d) same (h cc)
  repeated-some again (ok none, d') q d k h e = k d' e
  repeated-some again (err x, d') q d k h e = absurd (cc)

  prepare-some :
      (n : ℕ) (between : Db → Db) (db : Db) (q : Registration) (d : Db)
      → parse_registration_ids libs r.tenant_id r.id ≡ ok (t, i)
      → prepare libs n between r db ≡ some (ok q, d)
      → IsFor libs r t i q d
  unfolding prepare
  prepare-some zero between db q d p e = absurd (cc)
  prepare-some (suc n) between db q d p e =
      repeated-some (prepare libs n between r) (prepare_once libs between r db) q d
        (λ d' e'. prepare-some n between d' q d p e') (once-some between db q p) e

  -- After a Prepare that returned a registration, a repeated Prepare of the same request returns
  -- the same registration in its first pass and writes nothing.
  pub prepare-prepare :
      (n m : ℕ) (between between' : Db → Db) (db : Db) (q : Registration) (d : Db)
      → parse_registration_ids libs r.tenant_id r.id ≡ ok (t, i)
      → prepare libs n between r db ≡ some (ok q, d)
      → prepare libs (suc m) between' r d ≡ some (ok q, d)
  unfolding prepare
  prepare-prepare n m between between' db q d p e =
      ap (repeated libs (prepare libs m between' r))
        (once_again between' d q p (prepare-some n between db q d p e))

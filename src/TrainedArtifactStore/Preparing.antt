-- ===== src/TrainedArtifactStore/Preparing.antt =====
-- Prepare of internal/data/postgres/trained_artifact_store.go: how often it calls itself, and what
-- a repeated request returns.
use ani_model_service.Prelude.{
  ℕ, ◌≡◌, refl, ◌≢◌, Bool, true, false, str_eq, ok, err, Option, none, some, List, ◌∷◌, [], arith,
  any, eq_iff, is_none, Bool-cases, inl, inr,
}
use ani_model_service.Errors.{Res, Error}
use ani_model_service.Database.Table.{find}
use ani_model_service.Database.Rows.{RegistrationRow}
use ani_model_service.Database.Exec.{Db, Exec, lift, row, attempt, ◌>>=◌, Libs}
use ani_model_service.Database.Registrations
use ani_model_service.Database.Registrations.{
  is_registration, has_key, registration_clashes, registration_checks, registration_refers,
}
use ani_model_service.TrainedArtifactStore.{
  Registration, parse_registration_ids, scan_trained_artifact,
}
use ani_model_service.TrainedArtifactStore.Prepare.{
  insert, found, prepare_once, prepare, new_registration, optional_id, repeated, inserted,
}

-- What an INSERT of a registration returns.
data Insert (r : RegistrationRow) (db : Db) : Res RegistrationRow × Db → Type 0 where
  adds :
      any (registration_clashes r) db.registrations ≡ false
      → Insert r db (ok r, record db { registrations = r ∷ db.registrations })
  clashes :
      any (registration_clashes r) db.registrations ≡ true
      → Insert r db (err Error.unique_violation, db)
  unchecked : Insert r db (err Error.check_violation, db)
  dangles : Insert r db (err Error.foreign_key_violation, db)

insert_cases :
    (r : RegistrationRow) (db : Db) → Insert r db (Registrations.insert_registration r db)
unfolding Registrations.insert_registration
insert_cases r db = elim (Bool-cases (registration_checks r)) [
  | inr e ↦ rw e unchecked
  | inl e ↦ elim (Bool-cases (any (registration_clashes r) db.registrations)) [
    | inl c ↦ rw (e, c) (clashes c)
    | inr c ↦ elim (Bool-cases (registration_refers db r)) [
      | inr f ↦ rw (e, c, f) dangles
      | inl f ↦ rw (e, c, f) (adds c)
    ]
  ]
]

find_of_any :
    {A : Type 0} (p : A → Bool) (xs : List A) → any p xs ≡ true → (a : A) × (find p xs ≡ some a)
unfolding find
find_of_any p [] h = absurd (cc)
find_of_any p (x ∷ xs) h = elim (Bool-cases (p x)) [
  | inl e ↦ (x, rw e refl)
  | inr e ↦ let (a, f) = find_of_any p xs (rw e at h) in (a, rw e f)
]

-- A row of the same id is there, or one of the same key.
clash_key :
    (r : RegistrationRow) (rows : List RegistrationRow)
    → any (is_registration r.tenant_id r.id) rows ≡ false
    → any (registration_clashes r) rows ≡ true
    → any (has_key r.tenant_id r.idempotency_key) rows ≡ true
clash_key r [] h c = cc
clash_key r (x ∷ rows) h c = ground (arith, clash_key r rows)

module _ (libs : Libs) (r : Registration) (t i : ℕ) where
  -- A pass that leads to another one met a row of the same key, and changed nothing.
  inserted-none :
      (new : RegistrationRow) (db : Db) (o : Res RegistrationRow × Db)
      → Insert new db o
      → any (is_registration new.tenant_id new.id) db.registrations ≡ false
      → (inserted libs o.0 o.1).0 ≡ ok none
      → ((inserted libs o.0 o.1).1 ≡ db)
        × (any (has_key new.tenant_id new.idempotency_key) db.registrations ≡ true)
  inserted-none new db _ (adds c) h e = absurd (cc)
  inserted-none new db _ (clashes c) h e = (refl, clash_key new db.registrations h c)
  inserted-none new db _ unchecked h e = absurd (cc)
  inserted-none new db _ dangles h e = absurd (cc)

  insert-none :
      (db : Db)
      → any (is_registration t i) db.registrations ≡ false
      → (insert libs t i r db).0 ≡ ok none
      → ((insert libs t i r db).1 ≡ db)
        × (any (has_key t r.idempotency_key) db.registrations ≡ true)
  insert-none db h e =
      go (optional_id libs "target_model_id" r.target_model_id)
        (optional_id libs "source_model_version_id" r.source_model_version_id) e
    where
      chain : Res (Option ℕ) → Res (Option ℕ) → Exec (Option Registration)
      chain p q = lift p >>= λ target. lift q >>= λ source db.
          (attempt (
                Registrations.insert_registration
                  (new_registration libs db.clock t i target source r))
              >>= inserted libs)
            db

      go :
          (p q : Res (Option ℕ))
          → (chain p q db).0 ≡ ok none
          → ((chain p q db).1 ≡ db) × (any (has_key t r.idempotency_key) db.registrations ≡ true)
      go (err x) q e = absurd (cc)
      go (ok target) (err x) e = absurd (cc)
      go (ok target) (ok source) e =
          let new = new_registration libs db.clock t i target source r in
          inserted-none new db (Registrations.insert_registration new db) (insert_cases new db) h e

  found-none :
      (between : Db → Db) (o : Option RegistrationRow) (db : Db)
      → any (is_registration t i) (between db).registrations ≡ false
      → (found libs between t i r (row o) db).0 ≡ ok none
      → ((found libs between t i r (row o) db).1 ≡ between db)
        × (any (has_key t r.idempotency_key) (between db).registrations ≡ true)
  found-none between none db h e = insert-none (between db) h e
  found-none between (some s) db h e =
      elim (Bool-cases (str_eq s.request_fingerprint r.request_fingerprint)) [
        | inl f ↦ absurd (cc (rw f at e))
        | inr f ↦ absurd (cc (rw f at e))
      ]

  -- A row of the same key ends the calls.
  found_known :
      (between : Db → Db) (s : RegistrationRow) (db : Db)
      → (found libs between t i r (ok s) db).0 ≢ ok none
  found_known between s db e =
      elim (Bool-cases (str_eq s.request_fingerprint r.request_fingerprint)) [
        | inl f ↦ cc (rw f at e)
        | inr f ↦ cc (rw f at e)
      ]

  once-none :
      (between : Db → Db) (db : Db)
      → parse_registration_ids libs r.tenant_id r.id ≡ ok (t, i)
      → any (is_registration t i) (between db).registrations ≡ false
      → (prepare_once libs between r db).0 ≡ ok none
      → ((prepare_once libs between r db).1 ≡ between db)
        × (any (has_key t r.idempotency_key) (between db).registrations ≡ true)
  unfolding prepare_once Registrations.get_registration_by_key
  once-none between db p h =
      rw p (found-none between (find (has_key t r.idempotency_key) db.registrations) db h)

  once_known :
      (between : Db → Db) (db : Db)
      → parse_registration_ids libs r.tenant_id r.id ≡ ok (t, i)
      → any (has_key t r.idempotency_key) db.registrations ≡ true
      → (prepare_once libs between r db).0 ≢ ok none
  unfolding prepare_once Registrations.get_registration_by_key
  once_known between db p h =
      let (s, f) = find_of_any (has_key t r.idempotency_key) db.registrations h in
      rw (p, f) (found_known between s db)

  repeated_ends :
      (again : Db → Option (Res Registration × Db)) (o : Res (Option Registration) × Db)
      → (o.0 ≡ ok none → is_none (again o.1) ≡ false)
      → is_none (repeated libs again o) ≡ false
  repeated_ends again (ok (some q), d) h = refl
  repeated_ends again (ok none, d) h = h refl
  repeated_ends again (err e, d) h = refl

  -- Whatever other connections commit between the lookup and the insert of a pass, Prepare calls
  -- itself at most once, if no registration that is there at the first insert has the id of the
  -- request.
  pub prepare_settles :
      (between : Db → Db) (db : Db)
      → parse_registration_ids libs r.tenant_id r.id ≡ ok (t, i)
      → any (is_registration t i) (between db).registrations ≡ false
      → is_none (prepare libs 2 between r db) ≡ false
  unfolding prepare
  prepare_settles between db p h =
      repeated_ends (prepare libs 1 between r) (prepare_once libs between r db) λ e.
        let (same, known) = once-none between db p h e in
        repeated_ends (prepare libs 0 between r)
          (prepare_once libs between r (prepare_once libs between r db).1)
          λ e'. absurd (once_known between (prepare_once libs between r db).1 p (rw same known) e')

  -- The row of a result.
  abbrev pub IsFor : Registration → Db → Type 0
  IsFor q d =
      (s : RegistrationRow) × (find (has_key t r.idempotency_key) d.registrations ≡ some s)
      × (str_eq s.request_fingerprint r.request_fingerprint ≡ true)
      × (q ≡ scan_trained_artifact libs s)

  inserted-some :
      (new : RegistrationRow) (db : Db) (o : Res RegistrationRow × Db) (q : Registration)
      → Insert new db o
      → has_key t r.idempotency_key new ≡ true
      → str_eq new.request_fingerprint r.request_fingerprint ≡ true
      → (inserted libs o.0 o.1).0 ≡ ok (some q)
      → IsFor q (inserted libs o.0 o.1).1
  unfolding find
  inserted-some new db _ q (adds c) k f e = (new, rw k refl, f, cc)
  inserted-some new db _ q (clashes c) k f e = absurd (cc)
  inserted-some new db _ q unchecked k f e = absurd (cc)
  inserted-some new db _ q dangles k f e = absurd (cc)

  pub insert-some :
      (db : Db) (q : Registration)
      → (insert libs t i r db).0 ≡ ok (some q)
      → IsFor q (insert libs t i r db).1
  insert-some db q e =
      go (optional_id libs "target_model_id" r.target_model_id)
        (optional_id libs "source_model_version_id" r.source_model_version_id) e
    where
      chain : Res (Option ℕ) → Res (Option ℕ) → Exec (Option Registration)
      chain p q = lift p >>= λ target. lift q >>= λ source db.
          (attempt (
                Registrations.insert_registration
                  (new_registration libs db.clock t i target source r))
              >>= inserted libs)
            db

      go : (p p' : Res (Option ℕ)) → (chain p p' db).0 ≡ ok (some q) → IsFor q (chain p p' db).1
      go (err x) p' e = absurd (cc)
      go (ok target) (err x) e = absurd (cc)
      go (ok target) (ok source) e =
          let new = new_registration libs db.clock t i target source r in
          inserted-some new db (Registrations.insert_registration new db) q (insert_cases new db)
            (ground (arith, eq_iff r.idempotency_key r.idempotency_key))
            (ground (arith, eq_iff r.request_fingerprint r.request_fingerprint)) e

-- ===== src/ModelStore/Creation.antt =====
-- A creation of model_store.go that is sent again with its idempotency key.
use mathlib.Core.Path.{subst}
use ani_model_service.Prelude.{
  ℕ, String, ◌≡◌, ◌≢◌, refl, sym, ap, ◌∙◌, some, none, Option, ok, err, arith, false, eq_iff,
  str_eq, ◌∷◌, true, any, List, [], inl, inr, Bool-cases,
}
use ani_model_service.Errors.{Error}
use ani_model_service.Database.Table.{find}
use ani_model_service.Database.Rows.{ModelRow}
use ani_model_service.Database.Exec.{Db, Libs, parse_id, row, lift_inv}
use ani_model_service.Database.Registrations
use ani_model_service.VersionStore.{parse_model_ids}
use ani_model_service.VersionStore.Recreation.{same_tenant}
use ani_model_service.ModelStore.{
  Fields, has_key, is_source, get_model_by_idempotency, new_model, insert_model, fingerprint,
  looked_up, create_parsed, create_model_with_external_id,
}

-- The row that the key finds, with the fingerprint of the request.
abbrev pub Recorded : Libs → (Fields → String) → ℕ → Fields → String → Db → ModelRow → Type 0
Recorded libs json tenant f key db m =
    (find (has_key tenant key) db.models ≡ some m)
    × (m.request_fingerprint ≡ fingerprint libs json f)

module _ (libs : Libs) (json : Fields → String) (tenant id : ℕ) (f : Fields) (key : String) where
  insert_inv :
      (db d : Db) (m : ModelRow) (print : String)
      → insert_model tenant id f key print db ≡ (ok m, d)
      → (m ≡ new_model db.clock tenant id f key print)
        × (d.models ≡ new_model db.clock tenant id f key print ∷ db.models)
  unfolding insert_model Registrations.insert_model
  insert_inv db d m print h = (ground arith, ground arith)

  insert-Recorded :
      (db d : Db) (m : ModelRow)
      → insert_model tenant id f key (fingerprint libs json f) db ≡ (ok m, d)
      → Recorded libs json tenant f key d m
  unfolding find
  insert-Recorded db d m h =
      let (e, ms) = insert_inv db d m (fingerprint libs json f) h in
      (
        subst (λ xs. find (has_key tenant key) xs ≡ some m) (sym ms)
            (rw e (ground (arith, eq_iff key key))),
        rw e refl,
      )

  looked_up-Recorded :
      (between : Db → Db) (o : Option ModelRow) (db d : Db) (m : ModelRow)
      → find (has_key tenant key) db.models ≡ o
      → looked_up libs json between tenant id f key (row o) db ≡ (ok m, d)
      → Recorded libs json tenant f key d m
  looked_up-Recorded between none db d m g h = insert-Recorded (between db) d m h
  looked_up-Recorded between (some n) db d m g h =
      let s : d ≡ db = ground arith in
      let e : n ≡ m = ground arith in
      (
        ap (λ (x : Db). find (has_key tenant key) x.models) s ∙ g ∙ ap some e,
        ground (arith, eq_iff n.request_fingerprint (fingerprint libs json f)),
      )

  -- A request with a key looks the key up.
  create_parsed_lem :
      (between : Db → Db) (db : Db)
      → key ≢ ""
      → create_parsed libs json between tenant id f key db
        ≡ looked_up libs json between tenant id f key (row (find (has_key tenant key) db.models)) db
  unfolding create_parsed get_model_by_idempotency
  create_parsed_lem between db some_key =
      let keyed : str_eq key "" ≡ false = ground (arith, eq_iff key "") in rw keyed refl

  parsed-Recorded :
      (between : Db → Db) (db d : Db) (m : ModelRow)
      → key ≢ ""
      → create_parsed libs json between tenant id f key db ≡ (ok m, d)
      → Recorded libs json tenant f key d m
  parsed-Recorded between db d m some_key h =
      looked_up-Recorded between (find (has_key tenant key) db.models) db d m refl
        (sym (create_parsed_lem between db some_key) ∙ h)

  parsed_replayed :
      (between : Db → Db) (db : Db) (m : ModelRow)
      → key ≢ ""
      → Recorded libs json tenant f key db m
      → create_parsed libs json between tenant id f key db ≡ (ok m, db)
  parsed_replayed between db m some_key (r, p) =
      rw (create_parsed_lem between db some_key, r, p)
        (ground (arith, eq_iff (fingerprint libs json f) (fingerprint libs json f)))

-- After a creation of a model under a key that is not empty has returned a row, whatever other
-- connections committed between its lookup and its insert, the same fields and key sent again for
-- the tenant, with the same or another model id that can be parsed, return the same row and write
-- nothing.
pub create_model-create_model :
    (libs : Libs) (json : Fields → String) (between later : Db → Db) (tenant id again : String)
    (n : ℕ) (f : Fields) (key : String) (db d : Db) (m : ModelRow)
    → key ≢ ""
    → parse_id libs "model_id" again ≡ ok n
    → create_model_with_external_id libs json between tenant id f key db ≡ (ok m, d)
    → create_model_with_external_id libs json later tenant again f key d ≡ (ok m, d)
unfolding create_model_with_external_id
create_model-create_model libs json between later tenant id again n f key db d m some_key q h =
    let (ids, p, k) = lift_inv (parse_model_ids libs tenant id) _ db d m h in
    rw (same_tenant libs tenant id again ids n p q) (
      parsed_replayed libs json ids.0 n f key later d m some_key
        (parsed-Recorded libs json ids.0 ids.1 f key between db d m some_key k))

module _ (tenant id now : ℕ) (f : Fields) (key print : String) where
  -- A model with the key clashes with a new one of the key.
  keyed_clashes :
      (n : ModelRow)
      → key ≢ ""
      → has_key tenant key n ≡ true
      → Registrations.model_clashes (new_model now tenant id f key print) n ≡ true
  keyed_clashes n some_key h =
      let keyed : str_eq key "" ≡ false = ground (arith, eq_iff key "") in rw keyed (ground arith)

  any_clashes :
      (ms : List ModelRow) (n : ModelRow)
      → key ≢ ""
      → find (has_key tenant key) ms ≡ some n
      → any (Registrations.model_clashes (new_model now tenant id f key print)) ms ≡ true
  unfolding find
  any_clashes [] n some_key h = ground arith
  any_clashes (m ∷ ms) n some_key h = elim (Bool-cases (has_key tenant key m)) [
    | inl e ↦ rw (keyed_clashes m some_key e) refl
    | inr e ↦ let rest = any_clashes ms n some_key (rw e at h) in rw rest (ground arith)
  ]

-- When the key of a creation finds no model but another connection commits one with that key
-- before the insert, the creation of a model with a valid source returns a unique violation and
-- writes nothing; it does not read the model that won.
create_model_race :
    (libs : Libs) (json : Fields → String) (between : Db → Db) (tenant id : String) (ids : ℕ × ℕ)
    (f : Fields) (key : String) (db : Db) (n : ModelRow)
    → key ≢ ""
    → parse_model_ids libs tenant id ≡ ok ids
    → is_source f.source ≡ true
    → find (has_key ids.0 key) db.models ≡ none
    → find (has_key ids.0 key) (between db).models ≡ some n
    → create_model_with_external_id libs json between tenant id f key db
      ≡ (err Error.unique_violation, between db)
unfolding create_model_with_external_id insert_model Registrations.insert_model
create_model_race libs json between tenant id ids f key db n some_key p s absent won =
    rw
      (
        p,
        create_parsed_lem libs json ids.0 ids.1 f key between db some_key,
        absent,
        s,
        any_clashes ids.0 ids.1 (between db).clock f key (fingerprint libs json f)
            (between db).models n some_key won,
      )
      refl

-- ===== src/VersionStore/Marking.antt =====
-- MarkReady of internal/data/postgres/version_store.go, when it succeeds.
use mathlib.Core.Path.{subst}
use ani_model_service.Prelude.{
  ℕ, String, ◌≡◌, refl, ap, ◌∙◌, Bool, true, ◌&&◌, ok, ◌==◌, Option, none, some, List, [], ◌∷◌, any,
  arith, Bool-cases, inl, inr,
}
use ani_model_service.Database.Table.{find, update, count}
use ani_model_service.Database.Rows.{VersionRow, ModelRow, ArtifactRow, is_ready}
use ani_model_service.Database.Exec.{Db, Libs, lift, row, attempt, pure, ◌>>=◌, lift_inv}
use ani_model_service.Database.Versions
use ani_model_service.Database.Versions.{
  is_version, is_model, can_be_ready, version_ready, owns_ready, join_version,
}
use ani_model_service.VersionStore
use ani_model_service.VersionStore.{parse_model_ids, replayed_ready, get_version, mark_ready}

module _ {A : Type 0} where
  any_of_count : (p : A → Bool) (xs : List A) → (count p xs == 1) ≡ true → any p xs ≡ true
  unfolding count
  any_of_count p [] h = absurd (ground arith)
  any_of_count p (x ∷ xs) h = elim (Bool-cases (p x)) [
    | inl e ↦ rw e refl
    | inr e ↦ ground (arith, e, any_of_count p xs (rw e at h))
  ]

  any_left : (p q : A → Bool) (xs : List A) → any (λ x. p x && q x) xs ≡ true → any p xs ≡ true
  any_left p q [] h = absurd (ground arith)
  any_left p q (x ∷ xs) h = ground (arith, any_left p q xs)

  any-update :
      (p r : A → Bool) (f : A → A)
      → ((x : A) → p x ≡ true → r (f x) ≡ true)
      → (xs : List A) → any p xs ≡ true
      → any r (update p f xs) ≡ true
  unfolding update
  any-update p r f k [] h = absurd (ground arith)
  any-update p r f k (x ∷ xs) h = ground (arith, k x, any-update p r f k xs)

  any_of_find :
      (p q : A → Bool) (xs : List A) (a : A)
      → find p xs ≡ some a
      → q a ≡ true
      → any (λ x. p x && q x) xs ≡ true
  unfolding find
  any_of_find p q [] a h k = absurd (ground arith)
  any_of_find p q (x ∷ xs) a h k = elim (Bool-cases (p x)) [
    | inl e ↦
        let same : x ≡ a = ground (arith, e, h) in
        let ready : q x ≡ true = ap q same ∙ k in rw (e, ready) refl
    | inr e ↦ rw e (any_of_find p q xs a (rw e at h) k)
  ]

any_inner :
    {A B : Type 0} (p : A → Bool) (q : A → B → Bool) (xs : List A) (ys : List B)
    → any (λ y. any (λ x. p x && q x y) xs) ys ≡ true
    → any p xs ≡ true
any_inner p q xs [] h = absurd (ground arith)
any_inner p q xs (y ∷ ys) h = elim (Bool-cases (any (λ x. p x && q x y) xs)) [
  | inl e ↦ any_left p (λ x. q x y) xs e
  | inr e ↦ any_inner p q xs ys (rw e at h)
]

-- The version of this tenant and id is ready.
abbrev pub IsReady : ℕ → ℕ → Db → Type 0
IsReady tenant id db = any (λ v. is_version tenant id v && is_ready v.status) db.versions ≡ true

joined-IsReady :
    (db : Db) (tenant id : ℕ) (o : Option VersionRow) (r : VersionRow × ModelRow × _)
    → find (is_version tenant id) db.versions ≡ o
    → join_version db o ≡ some r
    → IsReady tenant id db
joined-IsReady db tenant id none r e h = absurd (ground arith)
joined-IsReady db tenant id (some v) r e h = elim (Bool-cases (is_ready v.status)) [
  | inl y ↦ any_of_find (is_version tenant id) (λ w. is_ready w.status) db.versions v e y
  | inr y ↦ absurd (ground (arith, y, h))
]

marked-IsReady :
    (db : Db) (tenant id : ℕ)
    → (count (owns_ready tenant id db) db.models == 1) ≡ true
    → IsReady tenant id (Versions.mark_model_version_ready tenant id db).1
unfolding Versions.mark_model_version_ready
marked-IsReady db tenant id h =
    any-update (can_be_ready tenant id db) (λ v. is_version tenant id v && is_ready v.status)
      (version_ready db.clock) (λ v e. ground (arith, e)) db.versions
      (any_inner (can_be_ready tenant id db) (λ v m. is_model v.tenant_id v.model_id m) db.versions
        db.models (any_of_count (owns_ready tenant id db) db.models h))

module _ (libs : Libs) (tenant version : String) (ids : ℕ × ℕ) where
  looked_up-IsReady :
      (o : Option (VersionRow × ModelRow × ArtifactRow)) (db d : Db)
      → parse_model_ids libs tenant version ≡ ok ids
      → join_version db (find (is_version ids.0 ids.1) db.versions) ≡ o
      → (attempt (lift (row o) >>= λ r. pure (VersionStore.version_of_row libs tenant version r))
            >>= replayed_ready libs)
          db
        ≡ (ok tt, d)
      → IsReady ids.0 ids.1 d
  looked_up-IsReady none db d p e h = absurd (ground (arith, h))
  looked_up-IsReady (some r) db d p e h =
      let same : db ≡ d = ground arith in
      subst (IsReady ids.0 ids.1) same
        (joined-IsReady db ids.0 ids.1 (find (is_version ids.0 ids.1) db.versions) r refl e)

  replayed-IsReady :
      (db d : Db)
      → parse_model_ids libs tenant version ≡ ok ids
      → (attempt (get_version libs tenant version) >>= replayed_ready libs) db ≡ (ok tt, d)
      → IsReady ids.0 ids.1 d
  unfolding get_version Versions.get_ready_model_version
  replayed-IsReady db d p h =
      looked_up-IsReady (join_version db (find (is_version ids.0 ids.1) db.versions)) db d p refl
        (rw p at h)

  mark-IsReady :
      (db d : Db)
      → parse_model_ids libs tenant version ≡ ok ids
      → mark_ready libs tenant version db ≡ (ok tt, d)
      → IsReady ids.0 ids.1 d
  unfolding mark_ready Versions.mark_model_version_ready
  mark-IsReady db d p h = elim (Bool-cases (count (owns_ready ids.0 ids.1 db) db.models == 1)) [
    | inl e ↦
        let done : (Versions.mark_model_version_ready ids.0 ids.1 db).1 ≡ d =
          ap (λ x. x.1) (rw (p, e) at h) in
        subst (IsReady ids.0 ids.1) done (marked-IsReady db ids.0 ids.1 e)
    | inr e ↦
        replayed-IsReady (Versions.mark_model_version_ready ids.0 ids.1 db).1 d p (rw (p, e) at h)
  ]

-- A MarkReady that succeeds leaves the version ready.
pub mark_ready-IsReady :
    (libs : Libs) (tenant version : String) (db d : Db)
    → mark_ready libs tenant version db ≡ (ok tt, d)
    → (ids : ℕ × ℕ) × (parse_model_ids libs tenant version ≡ ok ids) × IsReady ids.0 ids.1 d
unfolding mark_ready
mark_ready-IsReady libs tenant version db d h =
    let (ids, p, k) = lift_inv (parse_model_ids libs tenant version) _ db d tt h in
    (ids, p, mark-IsReady libs tenant version ids db d p h)

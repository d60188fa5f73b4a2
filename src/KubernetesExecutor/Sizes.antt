-- ===== src/KubernetesExecutor/Sizes.antt =====
-- How large the volume of internal/worker/kubernetes_executor.go is.
use ani_model_service.Prelude.{
  ℕ, ◌+◌, ◌-◌, ◌*◌, ◌/◌, ◌^◌, ◌≤◌, ◌<◌, ◌≡◌, ◌↔◌, refl, Bool, true, ◌&&◌, not, String, str_eq, ℤ,
  pos, negsuc, Option, none, some, List, [], ◌∷◌, arith, if◌then◌else◌, is_negative,
}
use ani_model_service.KubernetesExecutor.Storage.{
  File, max_int64, min_headroom, gi_bytes, added, total_size, headroom, with_headroom,
  estimate_size, storage_units,
}

-- The sizes of the files that the import takes, as unbounded numbers.
abbrev pub size_of : ℤ → ℕ
size_of (pos n) = n
size_of (negsuc n) = 0

abbrev pub is_taken : String → File → Bool
is_taken wanted f = not (not (str_eq wanted "") && not (str_eq f.path wanted))

abbrev pub sum_taken : String → List File → ℕ
sum_taken wanted [] = 0
sum_taken wanted (f ∷ fs) = (if is_taken wanted f then size_of f.size else 0) + sum_taken wanted fs

-- The sizes that the estimate takes: not negative, and with room for the least headroom.
abbrev pub IsFit : ℤ → Type 0
IsFit (pos n) = n ≤ max_int64 - min_headroom
IsFit (negsuc n) = ⊥

abbrev pub AllFit : String → List File → Type 0
AllFit wanted [] = Unit
AllFit wanted (f ∷ fs) = (is_taken wanted f ≡ true → IsFit f.size) × AllFit wanted fs

added_iff :
    (total n : ℕ) (size : ℤ)
    → (added total size ≡ some n)
      ↔ (IsFit size × (total + size_of size ≤ max_int64) × (n ≡ total + size_of size))
added_iff total n (pos k) = ground arith
added_iff total n (negsuc k) = ground arith

-- What the loop returns from a running total.
abbrev Totals : String → List File → ℕ → ℕ → Type 0
Totals wanted fs total n =
    AllFit wanted fs × (total + sum_taken wanted fs ≤ max_int64) × (n ≡ total + sum_taken wanted fs)

total_size-cons :
    (wanted : String) (f : File) (fs : List File) (total n : ℕ)
    → total ≤ max_int64
    → ((k : ℕ) → k ≤ max_int64 → (total_size wanted k fs ≡ some n) ↔ Totals wanted fs k n)
    → (total_size wanted total (f ∷ fs) ≡ some n) ↔ Totals wanted (f ∷ fs) total n
unfolding total_size
total_size-cons wanted f fs total n b ih =
    ground (
      arith,
      ih total,
      ih (total + size_of f.size),
      added_iff total (total + size_of f.size) f.size,
    )

total_size_iff :
    (wanted : String) (fs : List File) (total n : ℕ)
    → total ≤ max_int64
    → (total_size wanted total fs ≡ some n) ↔ Totals wanted fs total n
unfolding total_size
total_size_iff wanted [] total n b = ground arith
total_size_iff wanted (f ∷ fs) total n b =
    total_size-cons wanted f fs total n b (λ k c. total_size_iff wanted fs k n c)

-- The size of a volume is estimated exactly when each file that is taken has a size from 0 to 2 ^
-- 63 - 1 less 10 GiB, their true sum is not 0, and the sum with its headroom, a fifth and at least
-- 10 GiB, is at most 2 ^ 63 - 1; it is then that sum with its headroom.
pub estimate_size_iff :
    (wanted : String) (files : List File) (n : ℕ)
    → (estimate_size wanted files ≡ some n) ↔ (
        AllFit wanted files
        × (0 < sum_taken wanted files)
        × (n ≡ sum_taken wanted files + headroom (sum_taken wanted files))
        × (n ≤ max_int64))
unfolding estimate_size
estimate_size_iff wanted [] n = ground arith
estimate_size_iff wanted (f ∷ fs) n = go (total_size wanted 0 (f ∷ fs)) refl
  where
    go :
        (o : Option ℕ)
        → total_size wanted 0 (f ∷ fs) ≡ o
        → (with_headroom (total_size wanted 0 (f ∷ fs)) ≡ some n) ↔ (
            AllFit wanted (f ∷ fs)
            × (0 < sum_taken wanted (f ∷ fs))
            × (n ≡ sum_taken wanted (f ∷ fs) + headroom (sum_taken wanted (f ∷ fs)))
            × (n ≤ max_int64))
    go none e =
        rw e (ground (arith, e, total_size_iff wanted (f ∷ fs) 0 (sum_taken wanted (f ∷ fs))))
    go (some m) e = rw e (ground (arith, e, total_size_iff wanted (f ∷ fs) 0 m))

-- The GiB units of a volume of at most 2 ^ 63 - 1 bytes are the least that hold the bytes as long
-- as the bytes and one GiB are at most 2 ^ 63; beyond it the sum in storageQuantity wraps and the
-- units are negative.
pub storage_units_lem :
    (bytes : ℕ)
    → bytes ≤ max_int64
    → (bytes + gi_bytes ≤ 2 ^ 63
        → (u : ℕ) × (storage_units bytes ≡ pos u)
          × (bytes ≤ u * gi_bytes)
          × (u * gi_bytes < bytes + gi_bytes))
      × (2 ^ 63 < bytes + gi_bytes → is_negative (storage_units bytes) ≡ true)
unfolding storage_units
storage_units_lem bytes h = (
  λ k. ((bytes + gi_bytes - 1) / gi_bytes, ground arith, ground arith, ground arith),
  λ k. ground arith,
)

-- ===== src/KubernetesExecutor/Storage.antt =====
-- The volume that an import asks for: estimateManifestSize and storageQuantity of
-- internal/worker/kubernetes_executor.go, on int64.
use ani_model_service.Prelude.{
  ℕ, ◌+◌, ◌-◌, ◌*◌, ◌/◌, ◌%◌, ◌^◌, String, ◌&&◌, not, ltb, ◌==◌, str_eq, if◌then◌else◌, ℤ, pos,
  negsuc, Option, none, some, List, [], ◌∷◌,
}

-- importer.File
pub record File : Type 0 where
  pub path : String
  pub size : ℤ

abbrev pub max_int64 : ℕ
max_int64 = 2 ^ 63 - 1

abbrev pub gi_bytes : ℕ
gi_bytes = 2 ^ 30

-- minImportHeadroomBytes
abbrev pub min_headroom : ℕ
min_headroom = 10 * 2 ^ 30

-- The running total after one more file of this size; none stops the estimate.
abbrev pub added : ℕ → ℤ → Option ℕ
added total (negsuc n) = none
added total (pos size) =
    if ltb (max_int64 - min_headroom) size
    then none
    else if ltb (max_int64 - size) total
    then none
    else some (total + size)

-- The loop over the files: all of them, or the one that is wanted.
unfoldable pub total_size : String → ℕ → List File → Option ℕ
total_size wanted total [] = some total
total_size wanted total (file ∷ files) =
    if not (str_eq wanted "") && not (str_eq file.path wanted)
    then total_size wanted total files
    else elim (added total file.size) [ none ↦ none | some next ↦ total_size wanted next files ]

abbrev pub headroom : ℕ → ℕ
headroom total = if ltb (total / 5) min_headroom then min_headroom else total / 5

abbrev pub with_headroom : Option ℕ → Option ℕ
with_headroom none = none
with_headroom (some total) =
    if total == 0
    then none
    else if ltb (max_int64 - headroom total) total
    then none
    else some (total + headroom total)

-- estimateManifestSize, once the manifest is listed; `wanted` is the trimmed text after the #.
unfoldable pub estimate_size : String → List File → Option ℕ
unfolding total_size
estimate_size wanted [] = none
estimate_size wanted (file ∷ files) = with_headroom (total_size wanted 0 (file ∷ files))

-- The int64 of a bit pattern.
abbrev pub signed64 : ℕ → ℤ
signed64 w = if ltb w (2 ^ 63) then pos w else negsuc (2 ^ 64 - w - 1)

-- `/` on int64 truncates towards zero; the divisor is positive.
abbrev pub quotient : ℤ → ℕ → ℤ
quotient (pos n) d = pos (n / d)
quotient (negsuc n) d = if (n + 1) / d == 0 then pos 0 else negsuc ((n + 1) / d - 1)

-- The units of storageQuantity: (bytes + giBytes - 1) / giBytes, whose sum wraps.
unfoldable pub storage_units : ℕ → ℤ
storage_units bytes = quotient (signed64 ((bytes + gi_bytes - 1) % 2 ^ 64)) gi_bytes

-- ===== src/Pagination/Bounds.antt =====
-- Which pages internal/service/pagination.go accepts, and their offsets.
use native.Mathlib.Nat.{le-div_iff_mul-le}
use ani_model_service.Prelude.{
  ℕ, ◌-◌, ◌*◌, ◌/◌, ◌%◌, ◌^◌, ◌≤◌, ◌<◌, ◌≡◌, ◌↔◌, ap, refl, ◌⊎◌, inl, inr, true, ok, ltb, ℤ, pos,
  negsuc, Option, none, some, arith,
}
use ani_model_service.Pagination.{
  Page, page_of, page_of_int, resolve_page, value_or, max_int32, to_int32,
}

fits : (p size : ℕ) → 0 < size → (p - 1 ≤ max_int32 / size) ↔ ((p - 1) * size ≤ max_int32)
fits p size h = le-div_iff_mul-le h

pub resolve_positive_iff :
    (p size : ℕ) (r : Page)
    → (page_of p size ≡ ok r) ↔ (
        (0 < p)
        × (0 < size)
        × (size ≤ 100)
        × ((p - 1) * size ≤ max_int32)
        × (r.limit ≡ size)
        × (r.offset ≡ (p - 1) * size))
unfolding page_of
resolve_positive_iff p size r = (
  λ h.
      let positive : 0 < size = ground arith in
      (
        ground arith,
        positive,
        ground arith,
        (fits p size positive).0 (ground arith),
        ground arith,
        ground arith,
      ),
  λ (a, b, c, d, e, f).
      let small : p - 1 ≤ max_int32 / size = (fits p size b).1 d in ground (arith, small),
)

-- The parameter is `n`, or it is missing and `n` is the default.
abbrev pub Requested : Option ℤ → ℕ → ℕ → Type 0
Requested o default n = (o ≡ some (pos n)) ⊎ ((o ≡ none) × (default ≡ n))

-- What an accepted request is.
abbrev pub Accepted : Option ℤ → Option ℤ → Page → Type 0
Accepted page size r =
    (p : ℕ) × (n : ℕ) × Requested page 1 p
    × Requested size 20 n
    × (0 < p)
    × (0 < n)
    × (n ≤ 100)
    × ((p - 1) * n ≤ max_int32)
    × (r.limit ≡ n)
    × (r.offset ≡ (p - 1) * n)

requested :
    (o : Option ℤ) (default n : ℕ) → value_or (pos default) o ≡ pos n → Requested o default n
requested none default n e = inr (refl, ground arith)
requested (some z) default n e = inl (ap some e)

value_or-Requested :
    (o : Option ℤ) (default n : ℕ) → Requested o default n → value_or (pos default) o ≡ pos n
value_or-Requested none default n (inl e) = absurd (ground (arith, e))
value_or-Requested none default n (inr (_, e)) = ap pos e
value_or-Requested (some z) default n (inl e) = ground (arith, e)
value_or-Requested (some z) default n (inr (e, _)) = absurd (ground (arith, e))

-- A request is accepted exactly when its page and its page size, 1 and 20 where they are missing,
-- are both positive, the size is at most 100 and the offset (page - 1) * size is below 2 ^ 31; it
-- gives that size as the limit and that offset. A negative number is never accepted.
pub resolve_page_iff :
    (page size : Option ℤ) (r : Page) → (resolve_page page size ≡ ok r) ↔ Accepted page size r
unfolding resolve_page
resolve_page_iff page size r = (
  λ h. accepted (value_or (pos 1) page) (value_or (pos 20) size) refl refl h,
  λ (p, n, a, b, u, v, w, x, y, z).
      rw (value_or-Requested page 1 p a, value_or-Requested size 20 n b)
        ((resolve_positive_iff p n r).1 (u, v, w, x, y, z)),
)
  where
    accepted :
        (x y : ℤ)
        → value_or (pos 1) page ≡ x
        → value_or (pos 20) size ≡ y
        → page_of_int x y ≡ ok r
        → Accepted page size r
    accepted (pos p) (pos n) e f h =
        let (u, v, w, a, b, c) = (resolve_positive_iff p n r).0 h in
        (p, n, requested page 1 p e, requested size 20 n f, u, v, w, a, b, c)
    accepted (pos p) (negsuc n) e f h = absurd (cc)
    accepted (negsuc p) n e f h = absurd (cc)

pub int32_of_small : (n : ℕ) → n ≤ max_int32 → to_int32 n ≡ pos n
int32_of_small n h =
    let e : n % 2 ^ 32 ≡ n = omega (arith, h) in
    let l : ltb (n % 2 ^ 32) (2 ^ 31) ≡ true = ground (arith, e, h) in rw l (ap pos e)

page_of-offset :
    (p size : ℕ) (r : Page)
    → page_of p size ≡ ok r
    → (0 < r.limit) × (r.limit ≤ 100) × (to_int32 r.offset ≡ pos r.offset)
unfolding page_of
page_of-offset p size r h =
    let positive : 0 < size = ground arith in
    let small : (p - 1) * size ≤ max_int32 = (fits p size positive).0 (ground arith) in
    let same : r.offset ≡ (p - 1) * size = ground arith in
    (ground arith, ground arith, int32_of_small r.offset (ground (arith, small, same)))

-- Whatever page parameters are given, a page that is accepted has a limit from 1 to 100, and the
-- conversion of its offset to an int32 for the query loses nothing.
resolve_page-offset :
    (page size : Option ℤ) (r : Page)
    → resolve_page page size ≡ ok r
    → (0 < r.limit) × (r.limit ≤ 100) × (to_int32 r.offset ≡ pos r.offset)
unfolding resolve_page
resolve_page-offset page size r h = go (value_or (pos 1) page) (value_or (pos 20) size) h
  where
    go :
        (p s : ℤ)
        → page_of_int p s ≡ ok r
        → (0 < r.limit) × (r.limit ≤ 100) × (to_int32 r.offset ≡ pos r.offset)
    go (pos p) (pos s) h = page_of-offset p s r h
    go (pos p) (negsuc s) h = absurd (cc)
    go (negsuc p) s h = absurd (cc)

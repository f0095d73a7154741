-- ===== src/Abi/Memory/Bounds.antt =====
-- Which accesses to a view succeed, and what the others see of a write.
use fx.Prelude.{
  ℕ, zero, suc, ◌+◌, ◌-◌, ◌≤◌, ◌<◌, ◌≡◌, refl, ap, ◌⊎◌, inl, inr, some, [], ◌∷◌, ok, err, length,
  arith, nat_eq, Bool-cases, subst, leb, if◌then◌else◌, true, false,
}
use fx.Abi.Memory.{
  Bytes, u64_mod, take, drop, overwrite, range_end, in_range, out_of_bounds, slice, copy_from_slice,
  write_struct,
}

length-take : (n : ℕ) (view : Bytes) → n ≤ length view → length (take n view) ≡ n
length-take zero view h = refl
length-take (suc n) [] h = absurd (omega arith)
length-take (suc n) (x ∷ view) h = omega (arith, length-take n view (omega arith))

length-drop : (n : ℕ) (view : Bytes) → length (drop n view) ≡ length view - n
length-drop zero view = omega arith
length-drop (suc n) [] = omega arith
length-drop (suc n) (x ∷ view) = omega (arith, length-drop n view)

pub length-overwrite : (p : ℕ) (bs view : Bytes) → length (overwrite p bs view) ≡ length view
length-overwrite p [] view = refl
length-overwrite p (b ∷ bs) [] = refl
length-overwrite zero (b ∷ bs) (x ∷ view) = omega (arith, length-overwrite zero bs view)
length-overwrite (suc p) (b ∷ bs) (x ∷ view) = omega (arith, length-overwrite p (b ∷ bs) view)

take-overwrite :
    (bs view : Bytes) → length bs ≤ length view → take (length bs) (overwrite zero bs view) ≡ bs
take-overwrite [] view h = refl
take-overwrite (b ∷ bs) [] h = absurd (omega arith)
take-overwrite (b ∷ bs) (x ∷ view) h = ap (λ r. b ∷ r) (take-overwrite bs view (omega arith))

pub overwritten :
    (p : ℕ) (bs view : Bytes)
    → p + length bs ≤ length view
    → take (length bs) (drop p (overwrite p bs view)) ≡ bs
overwritten zero bs view h = take-overwrite bs view (omega arith)
overwritten (suc p) [] [] h = refl
overwritten (suc p) [] (x ∷ view) h = refl
overwritten (suc p) (b ∷ bs) [] h = absurd (omega arith)
overwritten (suc p) (b ∷ bs) (x ∷ view) h = overwritten p (b ∷ bs) view (omega arith)

take-before : (n p : ℕ) (bs view : Bytes) → n ≤ p → take n (overwrite p bs view) ≡ take n view
take-before zero p bs view h = refl
take-before (suc n) zero bs view h = absurd (omega arith)
take-before (suc n) (suc p) [] view h = refl
take-before (suc n) (suc p) (b ∷ bs) [] h = refl
take-before (suc n) (suc p) (b ∷ bs) (x ∷ view) h =
    ap (λ r. x ∷ r) (take-before n p (b ∷ bs) view (omega arith))

drop-after :
    (q p : ℕ) (bs view : Bytes) → p + length bs ≤ q → drop q (overwrite p bs view) ≡ drop q view
drop-after q p [] view h = refl
drop-after zero p (b ∷ bs) view h = absurd (omega arith)
drop-after (suc q) p (b ∷ bs) [] h = refl
drop-after (suc q) zero (b ∷ bs) (x ∷ view) h = drop-after q zero bs view (omega arith)
drop-after (suc q) (suc p) (b ∷ bs) (x ∷ view) h = drop-after q p (b ∷ bs) view (omega arith)

add_sub : (p n : ℕ) → (p + n) - p ≡ n
add_sub p n = omega arith

pub untouched :
    (q n p : ℕ) (bs view : Bytes)
    → (q + n ≤ p) ⊎ (p + length bs ≤ q)
    → take n (drop q (overwrite p bs view)) ≡ take n (drop q view)
untouched q n p bs view (inr h) = ap (take n) (drop-after q p bs view h)
untouched zero n p bs view (inl h) = take-before n p bs view (omega (arith, h))
untouched (suc q) n zero bs view (inl h) = absurd (omega arith)
untouched (suc q) n (suc p) [] view (inl h) = refl
untouched (suc q) n (suc p) (b ∷ bs) [] (inl h) = refl
untouched (suc q) n (suc p) (b ∷ bs) (x ∷ view) (inl h) =
    untouched q n p (b ∷ bs) view (inl (omega arith))

module _ (view : Bytes) (ptr len : ℕ) (addressable : length view < u64_mod) where
  range_fits :
      ptr + len ≤ length view
      → (in_range view ptr (range_end ptr len) ≡ true) × (range_end ptr len ≡ ptr + len)
  range_fits fits = ground arith

  range_refused :
      ptr < u64_mod
      → len < u64_mod
      → length view < ptr + len
      → in_range view ptr (range_end ptr len) ≡ false
  range_refused hp hl over = ground arith

-- A read of a view that can be addressed succeeds exactly where the range lies inside the view, also
-- where `ptr + len` wraps; then it gives the bytes at `ptr`.
pub slice_bounds :
    (view : Bytes) (ptr len : ℕ)
    → length view < u64_mod
    → ptr < u64_mod
    → len < u64_mod
    → slice view ptr len
      ≡ (if leb (ptr + len) (length view) then ok (take len (drop ptr view)) else err out_of_bounds)
unfolding slice
slice_bounds view ptr len addressable hp hl = elim (Bool-cases (leb (ptr + len) (length view))) [
  | inl inside ↦
      (let fits = range_fits view ptr len addressable (ground arith) in
        rw (inside, fits.0, fits.1, add_sub ptr len) refl)
  | inr outside ↦ rw (outside, range_refused view ptr len addressable hp hl (ground arith)) refl
]

-- A write never panics, and changes the view exactly where its range lies inside.
pub write_bounds :
    (view : Bytes) (ptr : ℕ) (bytes : Bytes)
    → length view < u64_mod
    → ptr < u64_mod
    → length bytes < u64_mod
    → copy_from_slice view ptr (length bytes) bytes
      ≡ some (
          if leb (ptr + length bytes) (length view)
          then ok (overwrite ptr bytes view)
          else err out_of_bounds)
unfolding copy_from_slice
write_bounds view ptr bytes addressable hp hl =
    elim (Bool-cases (leb (ptr + length bytes) (length view))) [
      | inl inside ↦
          (let fits = range_fits view ptr (length bytes) addressable (ground arith) in
            rw (inside, fits.0, fits.1, add_sub ptr (length bytes)) (ground arith))
      | inr outside ↦
          rw (outside, range_refused view ptr (length bytes) addressable hp hl (ground arith)) refl
    ]

-- What a structure's write has left, once it succeeded.
written-eq :
    (view written : Bytes) (addr : ℕ) (bytes : Bytes)
    → length view < u64_mod
    → addr < u64_mod
    → length bytes < u64_mod
    → write_struct view addr bytes ≡ some (ok written)
    → (leb (addr + length bytes) (length view) ≡ true) × (overwrite addr bytes view ≡ written)
unfolding write_struct
written-eq view written addr bytes hv ha hb h =
    ground (arith, write_bounds view addr bytes hv ha hb)

module _ (view : Bytes) (addr : ℕ) (bytes : Bytes) (ptr len : ℕ) (hv : length view < u64_mod)
    (ha : addr < u64_mod) (hb : length bytes < u64_mod) (hp : ptr < u64_mod) (hl : len < u64_mod)
    (apart : (ptr + len ≤ addr) ⊎ (addr + length bytes ≤ ptr)) where
  abbrev ReadsBack : Bytes → Type 0
  ReadsBack written =
      (slice written addr (length bytes) ≡ ok bytes)
      × (length written ≡ length view)
      × (slice written ptr len ≡ slice view ptr len)

  same_length : length (overwrite addr bytes view) < u64_mod
  same_length = rw length-overwrite hv

  overwrite-ReadsBack :
      leb (addr + length bytes) (length view) ≡ true → ReadsBack (overwrite addr bytes view)
  overwrite-ReadsBack inside = (
    rw
        (
          slice_bounds (overwrite addr bytes view) addr (length bytes) same_length ha hb,
          length-overwrite,
          inside,
        )
        (ap ok (overwritten addr bytes view (ground arith))),
    length-overwrite addr bytes view,
    rw
        (
          slice_bounds (overwrite addr bytes view) ptr len same_length hp hl,
          slice_bounds view ptr len hv hp hl,
          length-overwrite,
          untouched ptr len addr bytes view apart,
        )
        refl,
  )

  -- After a structure is written, a read at its address gives it back, the view is as long as
  -- before, and a range that does not meet it reads as before; for a view, addresses and lengths
  -- that fit a `u64`.
  pub slice-write_struct :
      (written : Bytes)
      → write_struct view addr bytes ≡ some (ok written)
      → (slice written addr (length bytes) ≡ ok bytes)
        × (length written ≡ length view)
        × (slice written ptr len ≡ slice view ptr len)
  slice-write_struct written h =
      subst ReadsBack (written-eq view written addr bytes hv ha hb h).1
        (overwrite-ReadsBack (written-eq view written addr bytes hv ha hb h).0)

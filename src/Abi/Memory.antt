-- ===== src/Abi/Memory.antt =====
-- The linear memory of a function instance as the host reads and writes it,
-- fx-runtime/src/function/abi/function_memory.rs. A view is the list of its bytes. Addresses and
-- lengths are `u64`, which is `usize` here; `ptr + len` wraps, as in a release build (a debug build
-- panics there), and slicing refuses a range that ends before it starts or past the end.
pub mod Bounds
use fx.Prelude.{
  ℕ, zero, suc, ◌+◌, ◌-◌, ◌%◌, ◌≡◌, Bool, true, false, ◌&&◌, Option, none, some, List, [], ◌∷◌,
  Result, ok, err, length, leb, if◌then◌else◌, ◌==◌, nat_eq,
}

abbrev pub Bytes : Type 0
Bytes = List ℕ

abbrev pub u64_mod : ℕ
u64_mod = 18446744073709551616

pub data FunctionMemoryError : Type 0 where
  memory_not_found memory_not_memory : FunctionMemoryError

pub data FunctionMemoryAccessError : Type 0 where
  out_of_bounds : FunctionMemoryAccessError

-- What `get_export("memory")` may find.
pub data Export : Type 0 where
  absent : Export
  other_kind : Export
  linear : (view : Bytes) → Export

unfoldable pub from_caller : Export → Result Bytes FunctionMemoryError
from_caller absent = err memory_not_found
from_caller other_kind = err memory_not_memory
from_caller (linear view) = ok view

-- `&view[..n]`, `&view[n..]` and the copy over `view[p..]`, once the range is known to fit.
abbrev pub take : ℕ → Bytes → Bytes
take zero view = []
take (suc n) [] = []
take (suc n) (x ∷ view) = x ∷ take n view

abbrev pub drop : ℕ → Bytes → Bytes
drop zero view = view
drop (suc n) [] = []
drop (suc n) (x ∷ view) = drop n view

abbrev pub overwrite : ℕ → Bytes → Bytes → Bytes
overwrite p [] view = view
overwrite p (b ∷ bs) [] = []
overwrite zero (b ∷ bs) (x ∷ view) = b ∷ overwrite zero bs view
overwrite (suc p) (b ∷ bs) (x ∷ view) = x ∷ overwrite p (b ∷ bs) view

abbrev pub range_end : ℕ → ℕ → ℕ
range_end ptr len = (ptr + len) % u64_mod

-- `view.get(ptr..end)` is there.
abbrev pub in_range : Bytes → ℕ → ℕ → Bool
in_range view ptr end = leb ptr end && leb end (length view)

unfoldable pub slice : Bytes → ℕ → ℕ → Result Bytes FunctionMemoryAccessError
slice view ptr len =
    let end = range_end ptr len in
    if in_range view ptr end then ok (take (end - ptr) (drop ptr view)) else err out_of_bounds

-- `slice::copy_from_slice` panics, here `none`, where the lengths differ.
unfoldable pub copy_from_slice :
    Bytes → ℕ → ℕ → Bytes → Option (Result Bytes FunctionMemoryAccessError)
copy_from_slice view ptr len source =
    let end = range_end ptr len in
    if in_range view ptr end
    then (if (end - ptr) == length source then some (ok (overwrite ptr source view)) else none)
    else some (err out_of_bounds)

unfoldable pub write_struct : Bytes → ℕ → Bytes → Option (Result Bytes FunctionMemoryAccessError)
unfolding copy_from_slice
write_struct view addr bytes = copy_from_slice view addr (length bytes) bytes

-- ===== src/Vm.antt =====
-- vm/vm.h and vm/vm_ops.c: the test whether a block of addresses fits into a free area, and what is
-- left of the area when the block is taken. Addresses are unsigned 64-bit numbers.
-- The modules below have the tree of the free areas and its operations.
pub mod Clip
pub mod Search
pub mod Node
pub mod Lookup
pub mod Delete
pub mod Merge
pub mod Split
pub mod Insert
use libalgo.Common.{
  ℕ, ◌+◌, ◌-◌, ◌%◌, ◌^◌, Option, none, some, Bool, true, false, ltb, leb, ◌==◌, ◌||◌, if◌then◌else◌,
}
use Prim.Native.Nat.{bit_and}

abbrev pub word : ℕ
word = 2 ^ 64

-- Addition and subtraction of unsigned long.
unfoldable pub add_ulong : ℕ → ℕ → ℕ
add_ulong a b = (a + b) % word

unfoldable pub sub_ulong : ℕ → ℕ → ℕ
sub_ulong a b = (a + (word - b)) % word

pub record VmapArea : Type 0 where
  pub va_start : ℕ
  pub va_end : ℕ

unfoldable pub va_size : VmapArea → ℕ
unfolding sub_ulong
va_size va = sub_ulong va.va_end va.va_start

-- ALIGN(x, a).
unfoldable pub align_up : ℕ → ℕ → ℕ
unfolding add_ulong sub_ulong
align_up x a = bit_and (sub_ulong (add_ulong x a) 1) (word - 1 - sub_ulong a 1)

-- The address that `is_within_this_va` and `va_alloc` try.
unfoldable pub nva_start : VmapArea → ℕ → ℕ → ℕ
unfolding align_up
nva_start va align vstart =
    if ltb vstart va.va_start then align_up va.va_start align else align_up vstart align

unfoldable pub is_within_this_va : VmapArea → ℕ → ℕ → ℕ → Bool
unfolding nva_start add_ulong
is_within_this_va va size align vstart =
    let nva = nva_start va align vstart in
    if ltb (add_ulong nva size) nva || ltb nva vstart
    then false
    else leb (add_ulong nva size) va.va_end

pub data FitType : Type 0 where
  nothing_fit fl_fit_type le_fit_type re_fit_type ne_fit_type : FitType

unfoldable pub classify_va_fit_type : VmapArea → ℕ → ℕ → FitType
unfolding add_ulong
classify_va_fit_type va nva size =
    if ltb nva va.va_start || ltb va.va_end (add_ulong nva size)
    then nothing_fit
    else if va.va_start == nva
    then if va.va_end == add_ulong nva size then fl_fit_type else le_fit_type
    else if va.va_end == add_ulong nva size
    then re_fit_type
    else ne_fit_type

-- What `va_clip` makes of the area: the area as it is changed, `none` where it is deleted, and the
-- remainder on its left that is inserted; `none` as a whole where `va_clip` returns -1.
pub record Clipped : Type 0 where
  pub va : Option VmapArea
  pub lva : Option VmapArea

unfoldable pub clip : VmapArea → ℕ → ℕ → Option Clipped
unfolding classify_va_fit_type add_ulong
clip va nva size = elim (classify_va_fit_type va nva size) [
  | nothing_fit ↦ none
  | fl_fit_type ↦ some (record { va = none; lva = none })
  | le_fit_type ↦
      some (record { va = some (record va { va_start = add_ulong va.va_start size }); lva = none })
  | re_fit_type ↦ some (record { va = some (record va { va_end = nva }); lva = none })
  | ne_fit_type ↦ some (record {
    va = some (record va { va_start = add_ulong nva size });
    lva = some (record { va_start = va.va_start; va_end = nva });
  })
]

-- ===== src/Tests/Vm.antt =====
-- vm/vm.h and vm/vm_ops.c on single areas.
use libalgo.Common.{ℕ, ◌-◌, ◌^◌, ◌≤◌, ◌≡◌, List, [], ◌∷◌, refl, true, arith}
use libalgo.Vm.{
  VmapArea, align_up, nva_start, is_within_this_va, clip, classify_va_fit_type, va_size,
  nothing_fit,
}
use libalgo.Vm.Search.{bpn_bin_search, pos_cc_lt, pos_cc_gt, Placed, bpn_bin_search-Placed}
use libalgo.Vm.Clip.{Taken, is_within_this_va-clip, clip-Taken}

abbrev keys : List ℕ
keys = 3 ∷ 4 ∷ 6 ∷ 7 ∷ []

-- The examples of the source's comment.
search_five : bpn_bin_search keys 5 ≡ (2, pos_cc_lt)
unfolding bpn_bin_search
search_five = refl

search_eight : bpn_bin_search keys 8 ≡ (4, pos_cc_gt)
unfolding bpn_bin_search
search_eight = refl

bpn_bin_search-Placed_example : Placed keys 6 (bpn_bin_search keys 6)
bpn_bin_search-Placed_example = bpn_bin_search-Placed keys 6 (omega arith)

abbrev area : VmapArea
area = record { va_start = 5000; va_end = 20000 }

align_5000 : align_up 5000 4096 ≡ 8192
unfolding align_up
align_5000 = refl

size_area : va_size area ≡ 15000
unfolding va_size
size_area = refl

is_within_this_va-clip_example :
    (0 ≤ nva_start area 4096 0)
    × Taken area (nva_start area 4096 0) 4096 (clip area (nva_start area 4096 0) 4096)
unfolding is_within_this_va align_up
is_within_this_va-clip_example =
    is_within_this_va-clip area 4096 4096 0 (omega arith) (omega arith) (omega arith) (omega arith)
      refl

clip-Taken_example : Taken area 8192 4096 (clip area 8192 4096)
clip-Taken_example = clip-Taken area 8192 4096 (omega arith) (omega arith) (omega arith)

-- The area starts in the last page: the alignment wraps to 0, which is not less than vstart.
abbrev top : VmapArea
top = record { va_start = 2 ^ 64 - 100; va_end = 2 ^ 64 - 1 }

top_accepted : is_within_this_va top 4096 4096 0 ≡ true
unfolding is_within_this_va align_up
top_accepted = refl

top_refused : classify_va_fit_type top 0 4096 ≡ nothing_fit
unfolding classify_va_fit_type
top_refused = refl

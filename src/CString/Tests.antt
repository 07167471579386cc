-- ===== src/CString/Tests.antt =====
-- Strings of the kernel, and the theorems at them.
use new_attempt.Base.{List, [], refl, some, true, ℕ, ◌++◌, ◌↔◌, ◌∷◌, ◌≡◌}
use new_attempt.CString.{negsuc, strncmp_k, same_name, codes}
use new_attempt.CString.Compare.{same_name_iff, SamePrefix}

-- An 8-byte buffer that holds "heart", and a longer name.
abbrev buffer : List ℕ
buffer = codes "heart" ++ (0 ∷ 120 ∷ 120 ∷ [])

abbrev long_name : List ℕ
long_name = codes "heartbeat"

same_name_iff_example : (same_name 5 buffer (some long_name) ≡ true) ↔ SamePrefix 5 buffer long_name
same_name_iff_example = same_name_iff 5 buffer long_name

compare_sign : strncmp_k (some buffer) (some long_name) 8 ≡ negsuc 97
unfolding strncmp_k
compare_sign = refl

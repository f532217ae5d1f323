-- ===== src/Driver/Tests.antt =====
-- Concrete runs of the range list, on a heap at the addresses 64 to 1023.
use c_course_projects.Common.{◌≡◌, refl, true, List, [], ◌∷◌, arith}
use c_course_projects.Driver.{Range, added, add_range, remove_range}
use c_course_projects.Driver.Overlap.{payload, Checked, add_range-Checked, add_range-misses}

abbrev one_range : List Range
one_range = payload 128 16 ∷ []

add_range-Checked_example :
    Checked 64 1023 true one_range 160 24 (add_range 64 1023 true one_range 160 24)
add_range-Checked_example = add_range-Checked 64 1023 true one_range 160 24 (omega arith, tt)

-- The payload from 96 to 195 is accepted beside the one from 128 to 143.
add_range-misses_example :
    add_range 64 1023 true one_range 96 100 ≡ added (payload 96 100 ∷ one_range)
add_range-misses_example =
    add_range-misses 64 1023 true one_range 96 100 (omega arith) refl (omega arith, omega arith)
      refl (omega arith, tt) ((omega arith, omega arith), tt)

remove_range-first : remove_range (payload 96 100 ∷ one_range) 96 ≡ one_range
unfolding remove_range
remove_range-first = refl

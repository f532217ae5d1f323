-- ===== src/Bits/Tests.antt =====
-- Concrete numbers.
use c_course_projects.Common.{◌≡◌, arith}
use c_course_projects.Bits.{add_ok, test_add_ok}
use c_course_projects.Bits.Agree.{add_ok-test_add_ok}

-- The sum of the greatest `int` and 1 is none.
add_ok-test_add_ok_example : add_ok 2147483647 1 ≡ test_add_ok 2147483647 1
add_ok-test_add_ok_example = add_ok-test_add_ok 2147483647 1 (omega arith) (omega arith)

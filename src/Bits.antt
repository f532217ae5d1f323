-- ===== src/Bits.antt =====
-- data/bits.c and data/tests.c: functions on `int` written with few operators, and what they are
-- tested against. An `int` has 32 bits and is the number below 2 ^ 32 with the same bits; its sum
-- wraps around, as the target's does.
pub mod Agree
mod Tests
use c_course_projects.Common.{
  ℕ, ◌+◌, ◌-◌, ◌*◌, ◌/◌, ◌%◌, ◌^◌, Bool, not, ◌&&◌, if◌then◌else◌, ltb, ◌==◌,
}
use Prim.Native.Nat.{bit_and as and_bits, bit_or as or_bits, bit_xor as xor_bits}
use c_course_projects.Common.Int.{ℤ, pos, negsuc, ◌+ℤ◌, ltb_ℤ}

-- The operators of C on the bits of an `int`.
abbrev pub ones : ℕ
ones = 4294967295

-- `~`
abbrev pub complement : ℕ → ℕ
complement x = ones - x

-- `+`
abbrev pub sum : ℕ → ℕ → ℕ
sum x y = (x + y) % 4294967296

-- `!`
abbrev pub is_zero_bits : ℕ → ℕ
is_zero_bits x = if x == 0 then 1 else 0

-- `>>` of a signed number copies the sign.
abbrev pub shift_right : ℕ → ℕ → ℕ
shift_right x n = if ltb x 2147483648 then x / 2 ^ n else ones - (ones - x) / 2 ^ n

-- `<<`
abbrev pub shift_left : ℕ → ℕ → ℕ
shift_left x n = (x * 2 ^ n) % 4294967296

unfoldable pub bit_and : ℕ → ℕ → ℕ
bit_and x y = complement (or_bits (complement x) (complement y))

unfoldable pub negate : ℕ → ℕ
negate x = sum (complement x) 1

unfoldable pub is_equal : ℕ → ℕ → ℕ
is_equal x y = is_zero_bits (sum (sum x (complement y)) 1)

unfoldable pub div_pwr_2 : ℕ → ℕ → ℕ
div_pwr_2 x n =
    let sign = shift_right x 31 in
    shift_right (sum x (and_bits sign (sum (sum (shift_left 1 n) (complement 1)) 1))) n

unfoldable pub conditional : ℕ → ℕ → ℕ → ℕ
conditional x y z =
    let i = sum (complement (is_zero_bits (is_zero_bits x))) 1 in
    or_bits (and_bits (complement i) z) (and_bits i y)

unfoldable pub replace_byte : ℕ → ℕ → ℕ → ℕ
replace_byte x n c =
    let i = shift_left n 3 in
    let mask = shift_left 255 i in or_bits (and_bits x (complement mask)) (shift_left c i)

unfoldable pub add_ok : ℕ → ℕ → ℕ
add_ok x y =
    let signx = shift_right x 31 in
    let signy = shift_right y 31 in
    let signa = shift_right (sum x y) 31 in
    is_zero_bits
      (and_bits (sum (sum signa (complement signy)) 1) (sum (sum signa (complement signx)) 1))

unfoldable pub abs_val : ℕ → ℕ
abs_val x = let sign = shift_right x 31 in sum (sum (xor_bits x sign) (complement sign)) 1

unfoldable pub bang : ℕ → ℕ
bang x = let mask = shift_right (or_bits x (sum (complement x) 1)) 31 in sum mask 1

-- The signed value of an `int`, and the `int` with the bits of a value.
abbrev pub signed : ℕ → ℤ
signed x = if ltb x 2147483648 then pos x else negsuc (4294967295 - x)

unfoldable pub test_bit_and : ℕ → ℕ → ℕ
test_bit_and x y = and_bits x y

-- The least `int` is its own negation.
unfoldable pub test_negate : ℕ → ℕ
test_negate x = if x == 0 then 0 else 4294967296 - x

unfoldable pub test_is_equal : ℕ → ℕ → ℕ
test_is_equal x y = if x == y then 1 else 0

-- The division of C rounds toward zero.
unfoldable pub test_div_pwr_2 : ℕ → ℕ → ℕ
unfolding test_negate
test_div_pwr_2 x n =
    let p2n = shift_left 1 n in
    if ltb x 2147483648 then x / p2n else test_negate ((4294967296 - x) / p2n)

unfoldable pub test_conditional : ℕ → ℕ → ℕ → ℕ
test_conditional x y z = if x == 0 then z else y

unfoldable pub test_replace_byte : ℕ → ℕ → ℕ → ℕ
test_replace_byte x n c =
    if n == 0
    then or_bits (and_bits x 0xFFFFFF00) c
    else if n == 1
    then or_bits (and_bits x 0xFFFF00FF) (shift_left c 8)
    else if n == 2
    then or_bits (and_bits x 0xFF00FFFF) (shift_left c 16)
    else or_bits (and_bits x 0x00FFFFFF) (shift_left c 24)

-- The sum as a `long long` is within the bounds of an `int`.
unfoldable pub test_add_ok : ℕ → ℕ → ℕ
unfolding ◌+ℤ◌
test_add_ok x y =
    let lsum = signed x +ℤ signed y in
    if not (ltb_ℤ lsum (negsuc 2147483647)) && ltb_ℤ lsum (pos 2147483648) then 1 else 0

unfoldable pub test_abs_val : ℕ → ℕ
unfolding test_negate
test_abs_val x = if ltb x 2147483648 then x else test_negate x

unfoldable pub test_bang : ℕ → ℕ
test_bang x = is_zero_bits x

-- ===== src/Strings.antt =====
-- stringsperf/strings/strings.c. A null-terminated string is the list of its bytes before the
-- terminator; an index into it is a number, and an index at its end reads the terminator. `int`
-- counters do not overflow: a string is shorter than 2 ^ 31 bytes.
pub mod Span
pub mod Compare
pub mod Find
mod Tests
use c_course_projects.Common.{
  ℕ, zero, suc, ◌+◌, ◌-◌, ◌≡◌, Bool, true, false, Option, none, some, List, [], ◌∷◌, drop, set,
  get_or, if◌then◌else◌, ltb, ◌==◌,
}
use c_course_projects.Common.Bytes.{Bytes}
use c_course_projects.Common.Int.{ℤ, pos, negsuc, ◌-ℤ◌}

-- The loop of `strlen`, with `length` as it is counted.
strlen_loop : Bytes → ℕ → ℕ
strlen_loop [] length = length
strlen_loop (c ∷ s) length = strlen_loop s (length + 1)

unfoldable pub strlen : Bytes → ℕ
unfolding strlen_loop
strlen s = strlen_loop s 0

-- The inner loop of `strspn` and `strcspn`: what is left of the set where the loop stops, which is
-- at the byte or at the terminator.
unfoldable pub scan_set : ℕ → Bytes → Bytes
scan_set c [] = []
scan_set c (a ∷ accept) = let rest = scan_set c accept in if c == a then a ∷ accept else rest

unfoldable pub strspn_loop : Bytes → Bytes → ℕ → ℕ
unfolding scan_set
strspn_loop [] accept i = i
strspn_loop (c ∷ s) accept i =
    let rest = strspn_loop s accept (i + 1) in elim (scan_set c accept) [ [] ↦ i | _ ∷ _ ↦ rest ]

unfoldable pub strspn : Bytes → Bytes → ℕ
unfolding strspn_loop
strspn s accept = strspn_loop s accept 0

unfoldable pub strcspn_loop : Bytes → Bytes → ℕ → ℕ
unfolding scan_set
strcspn_loop [] reject i = i
strcspn_loop (c ∷ s) reject i =
    let rest = strcspn_loop s reject (i + 1) in elim (scan_set c reject) [ [] ↦ rest | _ ∷ _ ↦ i ]

unfoldable pub strcspn : Bytes → Bytes → ℕ
unfolding strcspn_loop
strcspn s reject = strcspn_loop s reject 0

-- A `char` of the target is signed: the byte 128 is -128.
abbrev pub char : ℕ → ℤ
char c = if ltb c 128 then pos c else negsuc (255 - c)

-- `*s` and `s++`
abbrev pub first : Bytes → ℕ
first [] = 0
first (c ∷ s) = c

abbrev pub rest : Bytes → Bytes
rest [] = []
rest (c ∷ s) = s

abbrev pub is_zero : ℤ → Bool
is_zero (pos zero) = true
is_zero _ = false

unfoldable pub strncmp : Bytes → Bytes → ℕ → ℤ
unfolding ◌-ℤ◌
strncmp [] s2 zero = pos 0
strncmp [] s2 (suc n) = char 0 -ℤ char (first s2)
strncmp (c ∷ s1) s2 zero = pos 0
strncmp (c ∷ s1) s2 (suc n) =
    let val = char c -ℤ char (first s2) in
    let more = strncmp s1 (rest s2) n in if is_zero val then more else val

-- The loop of `strstr`; the result is the index of the pointer that is returned, `none` is NULL.
unfoldable pub strstr_loop : Bytes → Bytes → ℕ → ℕ → Option ℕ
unfolding strncmp
strstr_loop [] needle length i = none
strstr_loop (c ∷ haystack) needle length i =
    let more = strstr_loop haystack needle length (i + 1) in
    if is_zero (strncmp (c ∷ haystack) needle length) then some i else more

unfoldable pub strstr : Bytes → Bytes → Option ℕ
unfolding strlen strstr_loop
strstr haystack needle =
    let length = strlen needle in if length == 0 then none else strstr_loop haystack needle length 0

-- The string at an index of a buffer: the bytes up to a terminator.
unfoldable pub text_of : Bytes → Bytes
text_of [] = []
text_of (zero ∷ s) = []
text_of (suc c ∷ s) = suc c ∷ text_of s

abbrev pub text_at : Bytes → ℕ → Bytes
text_at buffer i = text_of (drop i buffer)

-- A call of `strtok`: the buffer, the static `rem`, and the token, as indices of the buffer.
pub record Tokenizer : Type 0 where
  pub buffer : Bytes
  pub rem : Option ℕ

-- From the point where `rem` is not NULL.
unfoldable pub next_token : Bytes → ℕ → Bytes → Tokenizer × Option ℕ
unfolding strspn strcspn text_of
next_token buffer rem delim =
    let str = rem + strspn (text_at buffer rem) delim in
    let end = str + strcspn (text_at buffer str) delim in
    if end == str
    then (record { buffer = buffer; rem = some end }, none)
    else if get_or buffer end 0 == 0
    then (record { buffer = buffer; rem = none }, some str)
    else (record { buffer = set buffer end 0; rem = some (end + 1) }, some str)

unfoldable pub strtok : Tokenizer → Option ℕ → Bytes → Tokenizer × Option ℕ
unfolding next_token
strtok t (some str) delim = next_token t.buffer str delim
strtok t none delim = elim t.rem [ none ↦ (t, none) | some rem ↦ next_token t.buffer rem delim ]

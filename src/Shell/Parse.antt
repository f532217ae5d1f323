-- ===== src/Shell/Parse.antt =====
-- shell_2/parse.c: how a line is cut into words, and where its redirections go.
--
-- The buffer is the line, in which spaces become 0, the terminator, and what lies behind it: after
-- the last word the code reads the byte behind the terminator. Beyond the end of the list the buffer
-- is taken to be 0.
use c_course_projects.Common.{
  ℕ, zero, suc, ◌+◌, Bool, true, false, ◌&&◌, ◌||◌, List, [], ◌∷◌, ◌++◌, if◌then◌else◌, leb, ◌==◌,
  ◌-◌, take, length, drop, get_or,
}
use c_course_projects.Common.Bytes.{Bytes, codes, strcmp, is_eq, isspace}
use c_course_projects.Common.Int.{ℤ, pos, ◌-ℤ◌, eqb_ℤ}
use c_course_projects.Strings.{text_at}

-- The bytes before the next 0.
unfoldable pub until_zero : Bytes → ℕ
until_zero [] = 0
until_zero (zero ∷ s) = 0
until_zero (suc c ∷ s) = suc (until_zero s)

-- The 0 bytes at the front.
unfoldable pub zeros : Bytes → ℕ
zeros [] = 0
zeros (zero ∷ s) = suc (zeros s)
zeros (suc c ∷ s) = 0

-- `find_next(str, c, len)`: neither loop goes on beyond `len`.
unfoldable pub find_next : Bytes → ℕ → ℕ → ℕ
unfolding until_zero zeros
find_next str c len =
    let d = c + until_zero (drop c str) in
    if leb c len then d + zeros (take (len + 1 - d) (drop d str)) else c

-- The loop that makes spaces 0 and counts the words; the flag is `flip`.
unfoldable pub mark_words : Bool → Bytes → Bytes × ℕ
mark_words flip [] = ([], 0)
mark_words flip (c ∷ s) =
    let (spaced, n) = mark_words false s in
    let (kept, k) = mark_words true s in
    if isspace c then (0 ∷ spaced, n) else (c ∷ kept, if flip then k else suc k)

-- What `parse` stores through its pointers. `argc` is the list of the indices in order.
pub record Line : Type 0 where
  pub iname : Bytes
  pub oname : Bytes
  pub iflag : ℕ
  pub oflag : ℕ
  pub aflag : ℕ
  pub narg : ℤ
  pub argc : List ℕ

-- How `parse` ends: with the buffer and the line, or with -1 and its message; `empty_line` has none.
pub data Parsed : Type 0 where
  parsed : Bytes → Line → Parsed
  empty_line multiple_output output_symbol no_output multiple_input input_symbol no_input : Parsed
  out_of_fuel : Parsed

abbrev pub is_text : Bytes → Bytes → Bool
is_text s t = is_eq (strcmp s t)

-- The three comparisons with the symbols, joined by `||` and by `&&`.
abbrev pub any_symbol : Bytes → Bool
any_symbol s = is_text s (codes ">>") || (is_text s (codes ">") || is_text s (codes "<"))

abbrev pub all_symbols : Bytes → Bool
all_symbols s = is_text s (codes ">>") && (is_text s (codes ">") && is_text s (codes "<"))

-- A redirection of the output with the given flag, whose name is at index `c`.
unfoldable pub redirect_output : (Bytes → Bool) → ℕ → Bytes → ℕ → Line → (Line → Parsed) → Parsed
redirect_output symbol flag str c line go_on =
    let oname = text_at str c in
    if line.oflag == 0
    then if symbol oname
      then output_symbol
      else if length oname == 0
      then no_output
      else go_on (record line { oflag = flag; narg = line.narg -ℤ pos 2; oname = oname })
    else multiple_output

unfoldable pub redirect_input : Bytes → ℕ → Line → (Line → Parsed) → Parsed
redirect_input str c line go_on =
    let iname = text_at str c in
    if line.iflag == 0
    then if all_symbols iname
      then input_symbol
      else if length iname == 0
      then no_input
      else go_on (record line { iflag = 3; narg = line.narg -ℤ pos 2; iname = iname })
    else multiple_input

-- The test for a `&` that is the last argument, at index `c`: the index and the line after it.
unfoldable pub ampersand : Bytes → (len c : ℕ) → Line → ℕ × Line
unfolding find_next
ampersand str len c line =
    if is_text (text_at str c) (codes "&") && eqb_ℤ (pos (length line.argc + 1)) line.narg
    then (find_next str c len, record line { narg = line.narg -ℤ pos 1; aflag = line.aflag + 1 })
    else (c, line)

-- The tests for the symbols, at the index after `ampersand`; `go_on` is the loop from an index.
unfoldable pub word_at : Bytes → (len c : ℕ) → Line → (ℕ → Line → Parsed) → Parsed
unfolding redirect_output redirect_input find_next
word_at str len c line go_on =
    let d = find_next str c len in
    if is_text (text_at str c) (codes ">>")
    then redirect_output any_symbol 2 str d line (go_on (find_next str d len))
    else if is_text (text_at str c) (codes ">")
    then redirect_output all_symbols 1 str d line (go_on (find_next str d len))
    else if is_text (text_at str c) (codes "<")
    then redirect_input str d line (go_on (find_next str d len))
    else go_on d (record line { argc = line.argc ++ (c ∷ []) })

-- The second loop, from index `c`.
unfoldable pub parse_words : ℕ → Bytes → (len c : ℕ) → Line → Parsed
unfolding ampersand word_at
parse_words zero str len c line = out_of_fuel
parse_words (suc fuel) str len c line =
    let (d, line') = ampersand str len c line in
    if get_or str c 0 == 0
    then parsed str line
    else word_at str len d line' (parse_words fuel str len)

abbrev pub start_line : ℕ → Line
start_line narg = record {
  iname = [];
  oname = [];
  iflag = 0;
  oflag = 0;
  aflag = 0;
  narg = pos narg;
  argc = [];
}

-- `parse` with the flags and counts at 0, on a buffer with the line, the terminator and `behind`.
-- Within the line each turn of the loop moves the index on.
unfoldable pub parse : ℕ → (line behind : Bytes) → Parsed
unfolding mark_words zeros parse_words
parse fuel line behind =
    let (marked, narg) = mark_words false line in
    let str = marked ++ (0 ∷ behind) in
    let len = length marked in
    if narg == 0
    then empty_line
    else parse_words fuel str len (zeros (take (len + 1) str)) (start_line narg)

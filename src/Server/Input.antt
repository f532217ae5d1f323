-- ===== src/Server/Input.antt =====
-- The loop of `main` in database/server.c over what is typed at the server.
--
-- `size` is 1 in the loop: the comparison is made before the assignment, so that the tests of `size`
-- in its body never hold, and only the first bytes of the buffer are looked at.
use c_course_projects.Common.{
  ℕ, suc, Option, none, some, List, [], ◌∷◌, ◌++◌, if◌then◌else◌, ◌==◌, ◌||◌, drop, set, length,
}
use c_course_projects.Common.Bytes.{Bytes}
use c_course_projects.Server.{Server, client_control_stop, client_control_release}

-- `db_print` with NULL or with the bytes from an address on, the two controls, or nothing.
pub data Command : Type 0 where
  print : Option Bytes → Command
  stop : Command
  release : Command
  ignored : Command

-- `read` into the buffer: the bytes that it had before are left behind those that are read.
unfoldable pub read_into : Bytes → Bytes → Bytes
read_into line input = line ++ drop (length line) input

-- The loop over `index`; `none` is a read past the buffer.
unfoldable pub newline_at : Bytes → Option ℕ
newline_at [] = none
newline_at (c ∷ s) =
    let rest : Option ℕ = elim (newline_at s) [ none ↦ none | some i ↦ some (suc i) ] in
    if c == 10 then some 0 else rest

-- A C string: the bytes before the first NUL.
unfoldable pub string_of : Bytes → Bytes
string_of [] = []
string_of (c ∷ s) = if c == 0 then [] else c ∷ string_of s

-- The command for a name: the new line is overwritten.
unfoldable pub print_named : Bytes → Option (Command × Bytes)
unfolding newline_at string_of
print_named input = elim (newline_at input) [
  | none ↦ none
  | some index ↦
      let ended = set input index 0 in some (print (some (string_of (drop 2 ended))), ended)
]

-- The command of the first two bytes of the buffer, and the buffer after it.
unfoldable pub command_of : ℕ → ℕ → Bytes → Option (Command × Bytes)
unfolding print_named
command_of c d input =
    if c == b'p'
    then if d == 0 || d == 10 then some (print none, input) else print_named input
    else if c == b's'
    then some (stop, input)
    else if c == b'g'
    then some (release, input)
    else some (ignored, input)

abbrev pub control : Command → Server → Server
control stop s = client_control_stop s
control release s = client_control_release s
control (print name) s = s
control ignored s = s

unfoldable pub command_in : Bytes → Option (Command × Bytes)
unfolding command_of
command_in [] = none
command_in (c ∷ []) = none
command_in (c ∷ d ∷ rest) = command_of c d (c ∷ d ∷ rest)

abbrev pub printed : Command → List (Option Bytes) → List (Option Bytes)
printed (print name) prints = name ∷ prints
printed stop prints = prints
printed release prints = prints
printed ignored prints = prints

-- The loop over the successful reads: the prints that are made, in order, and the server after them.
-- The buffer has 256 bytes; one with fewer than two does not occur.
unfoldable pub main_loop : List Bytes → Bytes → Server → Option (List (Option Bytes) × Server)
unfolding command_in read_into client_control_stop client_control_release
main_loop [] input s = some ([], s)
main_loop (line ∷ lines) input s = elim (command_in (read_into line input)) [
  | none ↦ none
  | some (c, input') ↦ elim (main_loop lines input' (control c s)) [
    | none ↦ none
    | some (prints, s') ↦ some (printed c prints, s')
  ]
]

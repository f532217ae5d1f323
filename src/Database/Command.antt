-- ===== src/Database/Command.antt =====
-- `interpret_command` of database/db.c, with the calls of the C library that it makes.
use c_course_projects.Common.{
  ℕ, zero, suc, ◌-◌, ◌||◌, Option, none, some, List, [], ◌∷◌, if◌then◌else◌, leb, ◌==◌,
}
use c_course_projects.Common.Bytes.{Bytes, codes, isspace}
use c_course_projects.Database.Tree.{Tree}
use c_course_projects.Database.Update.{
  Memory, Outcome, done, null_pointer, overflow, snprintf, db_query, db_add, db_remove,
}

-- The conversion `%255s` of `sscanf`: white space is skipped, and a word of at most 255 bytes read.
unfoldable pub skip_spaces : Bytes → Bytes
skip_spaces [] = []
skip_spaces (c ∷ s) = if isspace c then skip_spaces s else c ∷ s

unfoldable pub word : ℕ → Bytes → Bytes × Bytes
word zero s = ([], s)
word (suc n) [] = ([], [])
word (suc n) (c ∷ s) = let (w, rest) = word n s in if isspace c then ([], c ∷ s) else (c ∷ w, rest)

-- The word and what is left; `none` if the input ends before a word.
unfoldable pub scan_word : Bytes → Option (Bytes × Bytes)
unfolding skip_spaces word
scan_word s = elim (skip_spaces s) [ [] ↦ none | c ∷ rest ↦ some (word 255 (c ∷ rest)) ]

-- The successive results of `fgets` with a buffer of 256 bytes: at most 255 bytes each, and none
-- beyond a newline. `room` is what is left of the buffer.
unfoldable pub fgets_from : ℕ → Bytes → List Bytes
fgets_from room [] = []
fgets_from room (c ∷ s) =
    let stop = c == 10 || leb room 1 in
    let rest = fgets_from (if stop then 255 else room - 1) s in
    if stop
    then (c ∷ []) ∷ rest
    else (elim rest [ [] ↦ (c ∷ []) ∷ [] | line ∷ lines ↦ (c ∷ line) ∷ lines ])

unfoldable pub fgets_all : Bytes → List Bytes
unfolding fgets_from
fgets_all s = fgets_from 255 s

-- A run of a command: the tree and the response, a fault of the database, or too little fuel.
pub data Run : Type 0 where
  responds : Tree → Bytes → Run
  null_fault overflow_fault out_of_fuel : Run

-- `fopen(name, "r")`: the contents of a file that can be read. It comes from the file system.
abbrev pub FileSystem : Type 0
FileSystem = Bytes → Option Bytes

unfoldable pub run_lines : (Bytes → Tree → Bytes → Run) → List Bytes → Tree → Bytes → Run
run_lines step [] head response = responds head response
run_lines step (line ∷ lines) head response = elim (step line head response) [
  | responds head' response' ↦ run_lines step lines head' response'
  | null_fault ↦ null_fault
  | overflow_fault ↦ overflow_fault
  | out_of_fuel ↦ out_of_fuel
]

-- How an operation's result becomes a response.
abbrev pub respond : {A : Type 0} → (A → Bytes) → Outcome A → Run
respond f (done a head _) = responds head (f a)
respond f null_pointer = null_fault
respond f overflow = overflow_fault

module _ (files : FileSystem) (mem : Tree → Memory) (len : ℕ) where
  abbrev pub says : Tree → Bytes → Run
  says head text = responds head (snprintf len text)

  -- The case 'q': an empty answer is replaced.
  unfoldable pub query_command : Bytes → Tree → Run
  query_command args head = elim (scan_word args) [
    | none ↦ says head (codes "ill-formed command")
    | some (name, _) ↦
        respond (λ out. elim out [ [] ↦ snprintf len (codes "not found") | c ∷ cs ↦ c ∷ cs ])
          (db_query name len head)
  ]

  unfoldable pub add_command : Bytes → Tree → Run
  add_command args head = elim (scan_word args) [
    | none ↦ says head (codes "ill-formed command")
    | some (name, rest) ↦ elim (scan_word rest) [
      | none ↦ says head (codes "ill-formed command")
      | some (value, _) ↦
          respond
            (λ k.
              if k == 0
              then snprintf len (codes "already in database")
              else snprintf len (codes "added"))
            (db_add (mem head) name value head)
    ]
  ]

  unfoldable pub delete_command : Bytes → Tree → Run
  delete_command args head = elim (scan_word args) [
    | none ↦ says head (codes "ill-formed command")
    | some (name, _) ↦
        respond
          (λ k.
            if k == 0
            then snprintf len (codes "not in database")
            else snprintf len (codes "removed"))
          (db_remove name head)
  ]

  -- After the last line of a file.
  abbrev pub processed : Run → Run
  processed (responds head _) = says head (codes "file processed")
  processed null_fault = null_fault
  processed overflow_fault = overflow_fault
  processed out_of_fuel = out_of_fuel

  unfoldable pub file_command : (Bytes → Tree → Bytes → Run) → Bytes → Tree → Bytes → Run
  unfolding run_lines fgets_all
  file_command step args head response = elim (scan_word args) [
    | none ↦ says head (codes "ill-formed command")
    | some (name, _) ↦ elim (files name) [
      | none ↦ says head (codes "bad file name")
      | some text ↦ processed (run_lines step (fgets_all text) head response)
    ]
  ]

  -- `switch (command[0])`
  unfoldable pub dispatch : (Bytes → Tree → Bytes → Run) → ℕ → Bytes → Tree → Bytes → Run
  unfolding query_command add_command delete_command file_command
  dispatch step c args head response =
      if c == b'q'
      then query_command args head
      else if c == b'a'
      then add_command args head
      else if c == b'd'
      then delete_command args head
      else if c == b'f'
      then file_command step args head response
      else says head (codes "ill-formed command")

  -- The fuel bounds how deep files name files: a file that names itself never ends in C either.
  unfoldable pub interpret_command : ℕ → Bytes → Tree → Bytes → Run
  unfolding dispatch
  interpret_command fuel [] head response = says head (codes "ill-formed command")
  interpret_command fuel (c ∷ []) head response = says head (codes "ill-formed command")
  interpret_command zero (c ∷ d ∷ args) head response = out_of_fuel
  interpret_command (suc fuel) (c ∷ d ∷ args) head response =
      dispatch (interpret_command fuel) c (d ∷ args) head response

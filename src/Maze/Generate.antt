-- ===== src/Maze/Generate.antt =====
-- `main` of maze/generator.c: its arguments, the walk, and the file that it writes.
--
-- `atoi`, `rand` and the opening of the file are parameters. The file is the rows of numbers, each
-- written as one hexadecimal digit; that closing it fails is left out.
use c_course_projects.Common.{
  ℕ, zero, suc, ◌*◌, Bool, not, ◌||◌, Option, none, some, List, [], ◌∷◌, if◌then◌else◌, replicate,
  take, drop,
}
use c_course_projects.Common.Bytes.{Bytes}
use c_course_projects.Common.Int.{ℤ, pos, ltb_ℤ, pos_part}
use c_course_projects.Maze.Solver.{Maze, no_room}
use c_course_projects.Maze.Generator.{Random, drunken_walk, encode_maze}

pub data GeneratorExit : Type 0 where
  wrong_arguments not_positive no_output_file walk_failed : GeneratorExit
  generated : Bytes → List (List ℤ) → GeneratorExit

-- The array before the walk: no room is visited and no connection is set. The fields that the code
-- leaves as they are have some value.
abbrev pub fresh_maze : ℕ → Maze
fresh_maze count = replicate count no_room

-- The loops that write the rows.
unfoldable pub rows_of : ℕ → ℕ → List ℤ → List (List ℤ)
rows_of num_cols zero result = []
rows_of num_cols (suc rows) result =
    take num_cols result ∷ rows_of num_cols rows (drop num_cols result)

-- From the array on.
unfoldable pub generate : Random → ℕ → ℕ → Option (List (List ℤ))
unfolding drunken_walk encode_maze rows_of
generate rand num_rows num_cols =
    elim (drunken_walk rand num_rows num_cols (num_rows * num_cols) 0 0
      (record { maze = fresh_maze (num_cols * num_rows); calls = 0 })) [
        | none ↦ none
        | some walk ↦ some (rows_of num_cols num_rows (encode_maze walk.maze))
      ]

module _ (atoi : Bytes → ℤ) (rand : Random) (opens : Bytes → Bool) where
  -- `main(argc, argv)`, where the list is `argv`.
  unfoldable pub generator_main : List Bytes → GeneratorExit
  unfolding generate
  generator_main (program ∷ file_name ∷ rows ∷ cols ∷ []) =
      if not (ltb_ℤ (pos 0) (atoi cols)) || not (ltb_ℤ (pos 0) (atoi rows))
      then not_positive
      else (elim (generate rand (pos_part (atoi rows)) (pos_part (atoi cols))) [
        | none ↦ walk_failed
        | some lines ↦ if opens file_name then generated file_name lines else no_output_file
      ])
  generator_main _ = wrong_arguments

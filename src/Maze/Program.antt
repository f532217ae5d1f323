-- ===== src/Maze/Program.antt =====
-- `main` of maze/solver.c: its arguments, the reading of the maze, and the solution.
--
-- `atoi`, the files and the numbers that `fscanf` reads from a file are parameters. A file is written
-- by the rooms of the path; that closing it fails is left out.
use c_course_projects.Common.{
  ℕ, zero, suc, ◌+◌, ◌*◌, Bool, true, false, not, ◌||◌, Option, none, some, List, [], ◌∷◌, ◌++◌,
  if◌then◌else◌,
}
use c_course_projects.Common.Bytes.{Bytes}
use c_course_projects.Common.Int.{ℤ, pos, ltb_ℤ, pos_part}
use c_course_projects.Maze.{get_index}
use c_course_projects.Maze.Solver.{Maze, load_room, dfs, print_prunned}

-- How the program ends: with the message of an error, without a solution, or with the path.
pub data Exit : Type 0 where
  usage bad_dimensions start_out_of_bounds goal_out_of_bounds no_read_file no_write_file : Exit
  no_solution : Exit
  solved : List (ℕ × ℕ) → Exit
  out_of_fuel : Exit

-- The two loops that fill the array. `digit k` is the value of `hex` after `k + 1` calls of `fscanf`.
module _ (digit : ℕ → ℕ) (num_cols : ℕ) where
  unfoldable pub load_row : (i j count : ℕ) → Maze
  load_row i j zero = []
  load_row i j (suc count) =
      load_room i j (digit (get_index i j num_cols)) ∷ load_row i (j + 1) count

  unfoldable pub load_rows : (i count : ℕ) → Maze
  unfolding load_row
  load_rows i zero = []
  load_rows i (suc count) = load_row i 0 num_cols ++ load_rows (i + 1) count

-- From the reading of the maze on.
unfoldable pub solve :
    (digit : ℕ → ℕ) (fuel num_rows num_cols start_row start_col goal_row goal_col : ℕ) → Exit
unfolding load_rows
solve digit fuel num_rows num_cols start_row start_col goal_row goal_col =
    elim (dfs goal_row goal_col num_rows num_cols (num_rows * num_cols) start_row start_col
      (load_rows digit num_cols 0 num_rows)) [
        | none ↦ out_of_fuel
        | some (false, maze) ↦ no_solution
        | some (true, maze) ↦
            elim (print_prunned goal_row goal_col num_rows num_cols fuel maze
              (get_index start_row start_col num_cols)) [
                | none ↦ out_of_fuel
                | some path ↦ solved path
              ]
      ]

-- `n <= x || x < 0`
abbrev outside : ℤ → ℤ → Bool
outside n x = not (ltb_ℤ x n) || ltb_ℤ x (pos 0)

module _ (atoi : Bytes → ℤ) (read : Bytes → Option (ℕ → ℕ)) (can_write : Bytes → Bool) where
  -- The checks of the numbers and of the files.
  unfoldable pub check_arguments :
      (fuel : ℕ) (maze_file path_file : Bytes)
      (num_rows num_cols start_row start_col goal_row goal_col : ℤ)
      → Exit
  unfolding solve
  check_arguments fuel maze_file path_file num_rows num_cols start_row start_col goal_row goal_col =
      if not (ltb_ℤ (pos 0) num_cols) || not (ltb_ℤ (pos 0) num_rows)
      then bad_dimensions
      else if outside num_rows start_row || outside num_cols start_col
      then start_out_of_bounds
      else if outside num_rows goal_row || outside num_cols goal_col
      then goal_out_of_bounds
      else (elim (read maze_file) [
        | none ↦ no_read_file
        | some digit ↦
            if can_write path_file
            then solve digit fuel (pos_part num_rows) (pos_part num_cols) (pos_part start_row)
                (pos_part start_col) (pos_part goal_row) (pos_part goal_col)
            else no_write_file
      ])

  -- `main(argc, argv)`, where the list is `argv`.
  unfoldable pub solver_main : ℕ → List Bytes → Exit
  unfolding check_arguments
  solver_main fuel (name ∷ maze_file ∷ rows ∷ cols ∷ path_file ∷ srow ∷ scol ∷ grow ∷ gcol ∷ []) =
      check_arguments fuel maze_file path_file (atoi rows) (atoi cols) (atoi srow) (atoi scol)
        (atoi grow) (atoi gcol)
  solver_main fuel _ = usage

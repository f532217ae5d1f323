-- ===== src/Maze/Together.antt =====
-- maze/generator.c and maze/solver.c together: the solver on the numbers that the generator wrote.
use c_course_projects.Common.{ℕ, ◌<◌, ◌≡◌, refl, ap, sym, ◌∙◌, subst, arith, List, ◌∷◌, some}
use c_course_projects.Common.Int.{ℤ, pos}
use c_course_projects.Maze.{north, south, west, east, connection, get_index, row_of, col_of}
use c_course_projects.Maze.Solver.{Maze, room, is_opening, create_room_connections}
use c_course_projects.Maze.Grid.{InGrid, direction_index-InGrid, get_index-lt}
use c_course_projects.Maze.Generator.{Random, get_opposite_dir, encode_maze}
use c_course_projects.Maze.Generate.{rows_of, generate}
use c_course_projects.Maze.Shuffle.{get_opposite_dir-back}
use c_course_projects.Maze.Written.{written, written-rows_of, encode_maze-at}
use c_course_projects.Maze.Codes.{create-encode}
use c_course_projects.Maze.Sound.{Reaches, stop, through}
use c_course_projects.Maze.Spanned.{IsSpanned, generate-IsSpanned}
use c_course_projects.Maze.Print.{Route, arrive, onward}
use c_course_projects.Maze.Program.{
  Exit, usage, bad_dimensions, start_out_of_bounds, goal_out_of_bounds, no_read_file, no_write_file,
  solved, no_solution, out_of_fuel, solve,
}
use c_course_projects.Maze.Solved.{loaded, loaded-connections, Solves, solve-Solves}

pos-eq : {a b : ℕ} → pos a ≡ pos b → a ≡ b
pos-eq e = cc

some-eq : {A : Type 0} {a b : A} → some a ≡ some b → a ≡ b
some-eq e = cc

module _ (num_rows num_cols : ℕ) (m : Maze) (s : IsSpanned num_rows num_cols m) where
  Reaches-trans :
      {a b c d e f : ℕ}
      → Reaches num_rows num_cols m a b c d
      → Reaches num_rows num_cols m c d e f
      → Reaches num_rows num_cols m a b e f
  Reaches-trans stop q = q
  Reaches-trans (through d go o rest) q = through d go o (Reaches-trans rest q)

  -- The way back.
  Reaches-back :
      {row col r c : ℕ}
      → InGrid num_rows num_cols row col
      → Reaches num_rows num_cols m row col r c
      → Reaches num_rows num_cols m r c row col
  Reaches-back g stop = stop
  Reaches-back {row} {col} g (through d go o rest) =
      let back = get_opposite_dir-back num_rows num_cols row col d g go in
      let home =
        subst
          (λ x.
            Reaches num_rows num_cols m (row_of (row_of row d) (get_opposite_dir d))
              (col_of (col_of col d) (get_opposite_dir d)) x col)
          back.1
          (subst
            (λ y.
              Reaches num_rows num_cols m (row_of (row_of row d) (get_opposite_dir d))
                (col_of (col_of col d) (get_opposite_dir d))
                (row_of (row_of row d) (get_opposite_dir d)) y)
            back.2 stop) in
      Reaches-trans (Reaches-back (direction_index-InGrid row col d num_rows num_cols g go) rest)
        (through (get_opposite_dir d) back.0 (sym (s.agree row col d g go) ∙ o) home)

  reach_all :
      (row col r c : ℕ)
      → InGrid num_rows num_cols row col
      → InGrid num_rows num_cols r c
      → InGrid num_rows num_cols 0 0
      → Reaches num_rows num_cols m row col r c
  reach_all row col r c g g' g0 =
      Reaches-trans (Reaches-back g0 (s.reach row col g)) (s.reach r c g')

  -- Numbers that are read as they were written.
  module _ (digit : ℕ → ℕ) (start_row start_col goal_row goal_col : ℕ)
      (reads : (row col : ℕ)
        → InGrid num_rows num_cols row col
        → pos (digit (get_index row col num_cols))
          ≡ written (rows_of num_cols num_rows (encode_maze m)) row col) where
    connections-read :
        (row col : ℕ)
        → InGrid num_rows num_cols row col
        → create_room_connections (digit (get_index row col num_cols))
          ≡ (room m (get_index row col num_cols)).connections
    unfolding get_index
    connections-read row col g =
        let i = get_index row col num_cols in
        let (n, e, same) = create-encode (room m i).connections (record {
          north_set = s.is_set row col north g;
          south_set = s.is_set row col south g;
          west_set = s.is_set row col west g;
          east_set = s.is_set row col east g;
        }) in
        let number : pos (digit i) ≡ pos n =
          reads row col g
          ∙ written-rows_of num_cols num_rows (encode_maze m) row col g.row_lt g.col_lt
          ∙ encode_maze-at m i
              (subst (λ k. i < k) (sym s.size) (get_index-lt num_rows num_cols row col g))
          ∙ e in
        ap create_room_connections (pos-eq number) ∙ same

    abbrev read_maze : Maze
    read_maze = loaded digit num_rows num_cols start_row start_col goal_row goal_col

    same_connections :
        (row col : ℕ)
        → InGrid num_rows num_cols row col
        → (room read_maze (get_index row col num_cols)).connections
          ≡ (room m (get_index row col num_cols)).connections
    same_connections row col g =
        loaded-connections digit num_rows num_cols start_row start_col goal_row goal_col row col g
        ∙ connections-read row col g

    Reaches-Route :
        {col row r c : ℕ}
        → InGrid num_rows num_cols row col
        → Reaches num_rows num_cols m row col r c
        → (path : List (ℕ × ℕ)) × Route r c num_rows num_cols read_maze row col path
    Reaches-Route g stop = (_, arrive refl refl)
    Reaches-Route {col} {row} g (through d go o rest) =
        let (path, route) =
          Reaches-Route (direction_index-InGrid row col d num_rows num_cols g go) rest in
        (
          (row, col) ∷ path,
          onward d go
              (ap (λ k. is_opening (connection k d)) (same_connections row col g) ∙ ap is_opening o)
              route,
        )

    -- A way to end is the printing of a route where there is one.
    Solves-solved :
        (x : Exit) (path : List (ℕ × ℕ))
        → Route goal_row goal_col num_rows num_cols read_maze start_row start_col path
        → Solves digit num_rows num_cols start_row start_col goal_row goal_col x
        → (path' : List (ℕ × ℕ)) × (x ≡ solved path')
          × Route goal_row goal_col num_rows num_cols read_maze start_row start_col path'
    Solves-solved usage path route h = absurd h
    Solves-solved bad_dimensions path route h = absurd h
    Solves-solved start_out_of_bounds path route h = absurd h
    Solves-solved goal_out_of_bounds path route h = absurd h
    Solves-solved no_read_file path route h = absurd h
    Solves-solved no_write_file path route h = absurd h
    Solves-solved no_solution path route h = absurd (h path route)
    Solves-solved (solved path') path route h = (path', refl, h)
    Solves-solved out_of_fuel path route h = absurd h

    solve-solved :
        InGrid num_rows num_cols start_row start_col
        → InGrid num_rows num_cols goal_row goal_col
        → (fuel : ℕ) × (path : List (ℕ × ℕ)) × (solve digit fuel num_rows num_cols start_row
              start_col goal_row goal_col
            ≡ solved path)
          × Route goal_row goal_col num_rows num_cols read_maze start_row start_col path
    solve-solved gs gg =
        let g0 : InGrid num_rows num_cols 0 0 = record {
          row_lt = omega (arith, gs.row_lt);
          col_lt = omega (arith, gs.col_lt);
        } in
        let (path, route) =
          Reaches-Route gs (reach_all start_row start_col goal_row goal_col gs gg g0) in
        let (fuel, h) =
          solve-Solves digit num_rows num_cols start_row start_col goal_row goal_col gs in
        let (path', eq, route') =
          Solves-solved (solve digit fuel num_rows num_cols start_row start_col goal_row goal_col)
            path route h in
        (fuel, path', eq, route')

module _ (rand : Random) (num_rows num_cols start_row start_col goal_row goal_col : ℕ)
    (digit : ℕ → ℕ) where
  -- If the solver reads for each room the number that the generator wrote for it, then for any
  -- start and goal in the grid the solver's search succeeds with one unit of fuel for each room,
  -- and with some fuel for the printing it prints a path that leads from the start to the goal
  -- through openings. This holds whatever `rand` returned.
  pub generate-solved :
      InGrid num_rows num_cols start_row start_col
      → InGrid num_rows num_cols goal_row goal_col
      → (lines : List (List ℤ)) → generate rand num_rows num_cols ≡ some lines
      → ((row col : ℕ)
          → InGrid num_rows num_cols row col
          → pos (digit (get_index row col num_cols)) ≡ written lines row col)
      → (fuel : ℕ) × (path : List (ℕ × ℕ)) × (solve digit fuel num_rows num_cols start_row start_col
            goal_row goal_col
          ≡ solved path)
        × Route goal_row goal_col num_rows num_cols
            (loaded digit num_rows num_cols start_row start_col goal_row goal_col)
            start_row
            start_col
            path
  generate-solved gs gg lines h reads =
      let (m, e, s) =
        generate-IsSpanned rand num_rows num_cols (omega (arith, gs.row_lt))
          (omega (arith, gs.col_lt)) in
      solve-solved num_rows num_cols m s digit start_row start_col goal_row goal_col
        (λ row col g. reads row col g ∙ ap (λ l. written l row col) (some-eq (sym h ∙ e))) gs gg

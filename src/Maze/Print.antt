-- ===== src/Maze/Print.antt =====
-- `print_prunned` after a search that found the goal.
use c_course_projects.Common.{
  ℕ, suc, ◌≡◌, sym, subst, ◌∙◌, Bool, true, false, ◌&&◌, some, List, [], ◌∷◌, arith, ◌==◌,
  Bool-cases, inl, inr,
}
use c_course_projects.Maze.{
  Direction, connection, get_index, direction_index, row_of, col_of, neighbor_index,
}
use c_course_projects.Maze.Solver.{Maze, Result, room, is_opening, dfs, print_prunned}
use c_course_projects.Maze.Rooms.{unvisited}
use c_course_projects.Maze.Grid.{InGrid, direction_index-InGrid}
use c_course_projects.Maze.Trail.{IsGrid, IsGrid-Changes, Leads, at_goal, through}
use c_course_projects.Maze.Search.{dfs-Ends}

module _ (goal_row goal_col num_rows num_cols : ℕ) where
  -- The rooms of a way to the goal, each next to the one before, through an opening.
  pub data Route (m : Maze) : ℕ → ℕ → List (ℕ × ℕ) → Type 0 where
    arrive : {row col : ℕ} → row ≡ goal_row → col ≡ goal_col → Route m row col ((row, col) ∷ [])
    onward :
        {row col : ℕ} {path : List (ℕ × ℕ)} (dir : Direction)
        → direction_index row col dir num_rows num_cols ≡ true
        → is_opening (connection (room m (get_index row col num_cols)).connections dir) ≡ true
        → Route m (row_of row dir) (col_of col dir) path
        → Route m row col ((row, col) ∷ path)

  pub record Prints (m : Maze) (row col : ℕ) : Type 0 where
    pub fuel : ℕ
    pub path : List (ℕ × ℕ)
    pub print_eq :
        print_prunned goal_row goal_col num_rows num_cols fuel m (get_index row col num_cols)
        ≡ some path
    pub route : Route m row col path

  -- Where the `next` fields lead to the goal, `print_prunned` ends and prints a way there.
  pub print_prunned-Prints :
      {m : Maze} {row col : ℕ}
      → IsGrid goal_row goal_col num_rows num_cols m
      → InGrid num_rows num_cols row col
      → Leads goal_row goal_col num_rows num_cols m row col
      → Prints m row col
  unfolding print_prunned neighbor_index
  print_prunned-Prints {m} {row} {col} grid g (at_goal er ec) =
      let (hr, hc) = grid.places row col g in
      let hit : ((room m (get_index row col num_cols)).r == goal_row)
            && ((room m (get_index row col num_cols)).c == goal_col)
          ≡ true =
        ground arith in
      record {
        fuel = 1;
        path = (row, col) ∷ [];
        print_eq = rw (hit, print_prunned, hr, hc);
        route = arrive er ec;
      }
  print_prunned-Prints {m} {row} {col} grid g (through dir d op nx rest) =
      let (hr, hc) = grid.places row col g in
      let later =
        print_prunned-Prints grid (direction_index-InGrid row col dir num_rows num_cols g d) rest in
      elim (Bool-cases (
        ((room m (get_index row col num_cols)).r == goal_row)
        && ((room m (get_index row col num_cols)).c == goal_col))) [
          | inl hit ↦ record {
            fuel = 1;
            path = (row, col) ∷ [];
            print_eq = rw (hit, print_prunned, hr, hc);
            route = arrive (ground arith) (ground arith);
          }
          | inr miss ↦ record {
            fuel = suc later.fuel;
            path = (row, col) ∷ later.path;
            print_eq = rw (miss, print_prunned, nx, later.print_eq, hr, hc);
            route = onward dir d op later.route;
          }
        ]

  -- In an array with a room for each place of the grid, which knows its place: if the search from an
  -- unvisited room of the grid, with one unit of fuel for each unvisited room, finds the goal, `print_prunned` from that room
  -- ends and prints a way to the goal.
  pub dfs-print :
      (row col : ℕ) (m m' : Maze)
      → InGrid num_rows num_cols row col
      → IsGrid goal_row goal_col num_rows num_cols m
      → (room m (get_index row col num_cols)).visited ≡ false
      → dfs goal_row goal_col num_rows num_cols (unvisited m) row col m ≡ some (true, m')
      → Prints m' row col
  dfs-print row col m m' g grid new h =
      let e = dfs-Ends goal_row goal_col num_rows num_cols row col m g grid new in
      let same : (e.found ≡ true) × (e.maze ≡ m') = ended e.found e.maze m' (sym e.result_eq ∙ h) in
      let way =
        subst (λ x. Leads goal_row goal_col num_rows num_cols x row col) same.1 (e.leads same.0) in
      let kept =
        subst (IsGrid goal_row goal_col num_rows num_cols) same.1
          (IsGrid-Changes goal_row goal_col num_rows num_cols e.changes grid) in
      print_prunned-Prints kept g way
    where
      ended :
          (b : Bool) (x y : Maze)
          → ◌≡◌ {A = Result} (some (b, x)) (some (true, y))
          → (b ≡ true) × (x ≡ y)
      ended b x y q = (cc, cc)

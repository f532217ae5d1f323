-- ===== src/Maze/Solved.antt =====
-- The array that the solver reads, and the whole of its work after the checks.
use c_course_projects.Common.{
  ℕ, zero, suc, ◌+◌, ◌*◌, ◌<◌, ◌≤◌, ◌≡◌, refl, sym, subst, ap, ◌∙◌, true, false, some, List, [],
  ◌∷◌, ◌++◌, arith, length, length-append, Bool-cases, inl, inr,
}
use c_course_projects.Maze.{connection, get_index}
use c_course_projects.Maze.Solver.{Room, Maze, room, load_room, is_opening, create_room_connections}
use c_course_projects.Maze.Grid.{InGrid, direction_index-InGrid}
use c_course_projects.Maze.Rooms.{unvisited}
use c_course_projects.Maze.Trail.{IsGrid, IsGrid-Changes, IsPassed}
use c_course_projects.Maze.Search.{dfs-CallEnds}
use c_course_projects.Maze.Print.{Route, arrive, onward, print_prunned-Prints}
use c_course_projects.Maze.Program.{
  Exit, usage, bad_dimensions, start_out_of_bounds, goal_out_of_bounds, no_read_file, no_write_file,
  solved, no_solution, out_of_fuel, load_row, load_rows, solve,
}

unvisited-le : (m : Maze) → unvisited m ≤ length m
unvisited-le [] = omega arith
unvisited-le (x ∷ m) = ground (arith, unvisited-le m)

get_or-append_left : (xs ys : Maze) (i : ℕ) → i < length xs → room (xs ++ ys) i ≡ room xs i
get_or-append_left [] ys i h = absurd (omega arith)
get_or-append_left (x ∷ xs) ys zero h = refl
get_or-append_left (x ∷ xs) ys (suc i) h = get_or-append_left xs ys i (omega arith)

get_or-append_right : (xs ys : Maze) (i : ℕ) → room (xs ++ ys) (length xs + i) ≡ room ys i
get_or-append_right [] ys i = ap (room ys) {x = 0 + i} (omega arith)
get_or-append_right (x ∷ xs) ys i =
    ap (room (x ∷ (xs ++ ys))) {x = suc (length xs) + i} {y = suc (length xs + i)} (omega arith)
    ∙ get_or-append_right xs ys i

module _ (digit : ℕ → ℕ) (num_cols : ℕ) where
  length-load_row : (i j count : ℕ) → length (load_row digit num_cols i j count) ≡ count
  unfolding load_row
  length-load_row i j zero = refl
  length-load_row i j (suc count) = ap suc (length-load_row i (j + 1) count)

  length-load_rows : (i count : ℕ) → length (load_rows digit num_cols i count) ≡ count * num_cols
  unfolding load_rows
  length-load_rows i zero = omega arith
  length-load_rows i (suc count) = omega (
    arith,
    length-append (load_row digit num_cols i 0 num_cols) (load_rows digit num_cols (i + 1) count),
    length-load_row i 0 num_cols,
    length-load_rows (i + 1) count,
  )

  -- A room that knows its place and is not visited.
  abbrev Loaded : ℕ → ℕ → Room → Type 0
  Loaded row col x =
      (x.r ≡ row)
      × (x.c ≡ col)
      × (x.visited ≡ false)
      × (x.connections ≡ create_room_connections (digit (get_index row col num_cols)))

  same_number :
      (row row' col col' : ℕ)
      → row ≡ row'
      → col ≡ col'
      → create_room_connections (digit (get_index row col num_cols))
        ≡ create_room_connections (digit (get_index row' col' num_cols))
  same_number row row' col col' er ec = cc

  load_row-Loaded :
      (i j count k : ℕ) → k < count → Loaded i (j + k) (room (load_row digit num_cols i j count) k)
  unfolding load_row load_room
  load_row-Loaded i j zero k h = absurd (omega arith)
  load_row-Loaded i j (suc count) zero h =
      (refl, omega arith, refl, same_number i i j (j + 0) refl (omega arith))
  load_row-Loaded i j (suc count) (suc k) h =
      let (r, c, v, w) = load_row-Loaded i (j + 1) count k (omega arith) in
      (r, c ∙ omega arith, v, w ∙ same_number i i (j + 1 + k) (j + suc k) refl (omega arith))

  load_rows-Loaded :
      (i count k col : ℕ)
      → k < count
      → col < num_cols
      → Loaded (i + k) col (room (load_rows digit num_cols i count) (k * num_cols + col))
  unfolding load_rows
  load_rows-Loaded i zero k col h lt = absurd (omega arith)
  load_rows-Loaded i (suc count) zero col h lt =
      let row = load_row digit num_cols i 0 num_cols in
      let size = length-load_row i 0 num_cols in
      let at =
        get_or-append_left row (load_rows digit num_cols (i + 1) count) col (omega (arith, size)) in
      let index : 0 * num_cols + col ≡ col = omega arith in
      let (r, c, v, w) = load_row-Loaded i 0 num_cols col lt in
      rw (index, at)
        (
          r ∙ omega arith,
          c ∙ omega arith,
          v,
          w ∙ same_number i (i + 0) (0 + col) col (omega arith) (omega arith),
        )
  load_rows-Loaded i (suc count) (suc k) col h lt =
      let row = load_row digit num_cols i 0 num_cols in
      let size = length-load_row i 0 num_cols in
      let at =
        get_or-append_right row (load_rows digit num_cols (i + 1) count) (k * num_cols + col) in
      let index : suc k * num_cols + col ≡ length row + (k * num_cols + col) =
        omega (arith, size) in
      let (r, c, v, w) = load_rows-Loaded (i + 1) count k col (omega arith) lt in
      rw (index, at)
        (r ∙ omega arith, c, v, w ∙ same_number (i + 1 + k) (i + suc k) col col (omega arith) refl)

module _ (digit : ℕ → ℕ) (num_rows num_cols start_row start_col goal_row goal_col : ℕ) where
  abbrev pub loaded : Maze
  loaded = load_rows digit num_cols 0 num_rows

  loaded-IsGrid : IsGrid goal_row goal_col num_rows num_cols loaded
  unfolding get_index
  loaded-IsGrid = record {
    size = length-load_rows digit num_cols 0 num_rows;
    places = λ row col g.
        let (r, c, v, w) = load_rows-Loaded digit num_cols 0 num_rows row col g.row_lt g.col_lt in
        (r ∙ omega arith, c);
  }

  -- The connections of a room are those of its number.
  pub loaded-connections :
      (row col : ℕ)
      → InGrid num_rows num_cols row col
      → (room loaded (get_index row col num_cols)).connections
        ≡ create_room_connections (digit (get_index row col num_cols))
  unfolding get_index
  loaded-connections row col g =
      (load_rows-Loaded digit num_cols 0 num_rows row col g.row_lt g.col_lt).3
      ∙ same_number digit num_cols (0 + row) row col col (omega arith) refl

  -- A route depends on the connections only.
  Route-walls :
      (m m' : Maze)
      → ((i : ℕ) → (room m' i).connections ≡ (room m i).connections)
      → {row col : ℕ} {path : List (ℕ × ℕ)}
      → Route goal_row goal_col num_rows num_cols m' row col path
      → Route goal_row goal_col num_rows num_cols m row col path
  Route-walls m m' h (arrive er ec) = arrive er ec
  Route-walls m m' h {row} {col} (onward dir d op rest) =
      onward dir d
        (subst (λ k. is_opening (connection k dir) ≡ true) (h (get_index row col num_cols)) op)
        (Route-walls m m' h rest)

  -- A room from which there is a route is not among the rooms of a search without the goal.
  no-Route :
      (m m' : Maze)
      → ((i : ℕ) → (room m' i).connections ≡ (room m i).connections)
      → ((row col : ℕ)
          → InGrid num_rows num_cols row col
          → (room m' (get_index row col num_cols)).visited ≡ true
          → IsPassed goal_row goal_col num_rows num_cols m' row col)
      → {row col : ℕ} {path : List (ℕ × ℕ)} → InGrid num_rows num_cols row col
      → (room m' (get_index row col num_cols)).visited ≡ true
      → ¬ Route goal_row goal_col num_rows num_cols m row col path
  no-Route m m' h passed {row} {col} g v (arrive er ec) = (passed row col g v).0 er ec
  no-Route m m' h passed {row} {col} g v (onward dir d op rest) =
      no-Route m m' h passed (direction_index-InGrid row col dir num_rows num_cols g d)
        ((passed row col g v).1 dir d (
          subst (λ k. is_opening (connection k dir) ≡ true) (sym (h (get_index row col num_cols)))
            op))
        rest

  -- How the work ends: without a solution if there is no route, or with a route through the maze
  -- that was read.
  abbrev pub Solves : Exit → Type 0
  Solves usage = ⊥
  Solves bad_dimensions = ⊥
  Solves start_out_of_bounds = ⊥
  Solves goal_out_of_bounds = ⊥
  Solves no_read_file = ⊥
  Solves no_write_file = ⊥
  Solves no_solution =
      (path : List (ℕ × ℕ))
      → ¬ Route goal_row goal_col num_rows num_cols loaded start_row start_col path
  Solves (solved path) = Route goal_row goal_col num_rows num_cols loaded start_row start_col path
  Solves out_of_fuel = ⊥

  loaded-unvisited :
      (row col : ℕ)
      → InGrid num_rows num_cols row col
      → (room loaded (get_index row col num_cols)).visited ≡ false
  unfolding get_index
  loaded-unvisited row col g =
      (load_rows-Loaded digit num_cols 0 num_rows row col g.row_lt g.col_lt).2

  -- Whatever numbers are read, from a start in the grid the search ends with one unit of fuel
  -- for each room, and the printing with some fuel: either it tells that there is no solution,
  -- and no path leads from the start to the goal through openings of the maze that was read, or
  -- the path that is printed is such a path.
  pub solve-Solves :
      InGrid num_rows num_cols start_row start_col
      → (fuel : ℕ) × Solves
          (solve digit fuel num_rows num_cols start_row start_col goal_row goal_col)
  unfolding solve
  solve-Solves g =
      let here = get_index start_row start_col num_cols in
      let e =
        dfs-CallEnds goal_row goal_col num_rows num_cols (num_rows * num_cols) start_row start_col
          loaded g loaded-IsGrid (loaded-unvisited start_row start_col g)
          (omega (arith, unvisited-le loaded, length-load_rows digit num_cols 0 num_rows)) in
      elim (Bool-cases e.found) [
        | inr f ↦ (
          0,
          rw (e.result_eq ∙ ap (λ b. some (b, e.maze)) f, solve)
              (λ path.
                no-Route loaded e.maze e.changes.walls
                  (λ row col gr. e.closed f row col gr (loaded-unvisited row col gr)) g e.entered),
        )
        | inl f ↦
            let kept = IsGrid-Changes goal_row goal_col num_rows num_cols e.changes loaded-IsGrid in
            let p = print_prunned-Prints goal_row goal_col num_rows num_cols kept g (e.leads f) in
            (
              p.fuel,
              rw (e.result_eq ∙ ap (λ b. some (b, e.maze)) f, solve, p.print_eq)
                  (Route-walls loaded e.maze e.changes.walls p.route),
            )
      ]

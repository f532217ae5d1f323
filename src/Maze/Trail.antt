-- ===== src/Maze/Trail.antt =====
-- What the depth-first search leaves behind, with and without the goal.
use c_course_projects.Common.{
  ℕ, ◌≤◌, ◌*◌, ◌≡◌, ◌≢◌, sym, ◌∙◌, ap, Bool, true, false, some, length, Bool-cases, inl, inr,
}
use c_course_projects.Maze.{
  Direction, connection, get_index, direction_index, row_of, col_of, neighbor_index,
}
use c_course_projects.Maze.Solver.{Maze, room, is_opening, Result}
use c_course_projects.Maze.Grid.{InGrid}
use c_course_projects.Maze.Rooms.{unvisited, Changes}

module _ (goal_row goal_col num_rows num_cols : ℕ) where
  -- The array has a room for each place of the grid, which knows its place.
  pub record IsGrid (m : Maze) : Type 0 where
    pub size : length m ≡ num_rows * num_cols
    pub places :
        (row col : ℕ)
        → InGrid num_rows num_cols row col
        → ((room m (get_index row col num_cols)).r ≡ row)
          × ((room m (get_index row col num_cols)).c ≡ col)

  -- From the room the `next` fields lead to the goal, each through an opening to a neighbor.
  pub data Leads (m : Maze) : ℕ → ℕ → Type 0 where
    at_goal : {row col : ℕ} → row ≡ goal_row → col ≡ goal_col → Leads m row col
    through :
        {row col : ℕ} (dir : Direction)
        → direction_index row col dir num_rows num_cols ≡ true
        → is_opening (connection (room m (get_index row col num_cols)).connections dir) ≡ true
        → (room m (get_index row col num_cols)).next ≡ some (neighbor_index num_cols row col dir)
        → Leads m (row_of row dir) (col_of col dir)
        → Leads m row col

  pub IsGrid-Changes : {e : ℕ} {m m' : Maze} → Changes e m m' → IsGrid m → IsGrid m'
  IsGrid-Changes ch g = record {
    size = ch.size ∙ g.size;
    places = λ row col h. (
      ch.row (get_index row col num_cols) ∙ (g.places row col h).0,
      ch.col (get_index row col num_cols) ∙ (g.places row col h).1,
    );
  }

  -- Where there is an opening to a neighbor, the neighbor is visited.
  abbrev pub Passed : Maze → ℕ → ℕ → Direction → Type 0
  Passed m row col dir =
      direction_index row col dir num_rows num_cols ≡ true
      → is_opening (connection (room m (get_index row col num_cols)).connections dir) ≡ true
      → (room m (get_index (row_of row dir) (col_of col dir) num_cols)).visited ≡ true

  -- It is not the goal, and all neighbors behind openings are visited.
  abbrev pub IsPassed : Maze → ℕ → ℕ → Type 0
  IsPassed m row col =
      ((row ≡ goal_row) → col ≢ goal_col) × ((dir : Direction) → Passed m row col dir)

  -- All rooms that are visited after the change only are passed.
  abbrev pub IsClosed : Maze → Maze → Type 0
  IsClosed m m' =
      (row col : ℕ)
      → InGrid num_rows num_cols row col
      → (room m (get_index row col num_cols)).visited ≡ false
      → (room m' (get_index row col num_cols)).visited ≡ true
      → IsPassed m' row col

  pub Passed-kept :
      {e : ℕ} {m m' : Maze} (row col : ℕ) (dir : Direction)
      → Changes e m m'
      → Passed m row col dir
      → Passed m' row col dir
  Passed-kept row col dir ch p go op =
      ch.stays _ (p go (ap (λ k. is_opening (connection k dir)) (sym (ch.walls _)) ∙ op))

  pub IsClosed-trans :
      {e : ℕ} (a : Maze) {b c : Maze} → Changes e b c → IsClosed a b → IsClosed b c → IsClosed a c
  IsClosed-trans a {b} ch p q row col g new old =
      elim (Bool-cases (room b (get_index row col num_cols)).visited) [
        | inr v ↦ q row col g v old
        | inl v ↦
            let (not_goal, passed) = p row col g new v in
            (not_goal, λ dir. Passed-kept row col dir ch (passed dir))
      ]

  -- The search from a place ends, with the change that it makes and, if it finds the goal, a path. The
  -- room is visited, and without the goal what is visited is closed.
  pub record Ends (row col : ℕ) (m : Maze) (result : Result) : Type 0 where
    pub found : Bool
    pub maze : Maze
    pub result_eq : result ≡ some (found, maze)
    pub changes : Changes (get_index row col num_cols) m maze
    pub entered : (room maze (get_index row col num_cols)).visited ≡ true
    pub leads : found ≡ true → Leads maze row col
    pub closed : found ≡ false → IsClosed m maze

  abbrev pub CallEnds : ℕ → (ℕ → ℕ → Maze → Result) → Type 0
  CallEnds fuel call =
      (row col : ℕ) (m : Maze)
      → InGrid num_rows num_cols row col
      → IsGrid m
      → (room m (get_index row col num_cols)).visited ≡ false
      → unvisited m ≤ fuel
      → Ends row col m (call row col m)

  -- A call at an unvisited room leaves every visited room as it was.
  pub kept_all :
      {n : ℕ} {m m' : Maze}
      → Changes n m m'
      → (room m n).visited ≡ false
      → (i : ℕ) → (room m i).visited ≡ true
      → room m' i ≡ room m i
  kept_all {m} ch new i old = ch.kept i (λ e. cc (ap (λ k. (room m k).visited) e)) old

  pub widen : {n e : ℕ} {m m' : Maze} → Changes n m m' → (room m n).visited ≡ false → Changes e m m'
  widen ch new = record {
    size = ch.size;
    row = ch.row;
    col = ch.col;
    walls = ch.walls;
    stays = ch.stays;
    kept = λ i _ old. kept_all ch new i old;
    fewer = ch.fewer;
  }

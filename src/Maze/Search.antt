-- ===== src/Maze/Search.antt =====
-- The depth-first search ends, changes nothing but what it visits, and leaves a path behind.
use c_course_projects.Common.{
  ℕ, zero, suc, ◌≤◌, ◌≡◌, refl, ap, true, false, not, ◌&&◌, some, List, [], ◌∷◌, arith, set, sym,
  ◌∙◌, get_or-set_self, ◌==◌, Bool-cases, inl, inr,
}
use c_course_projects.Maze.{
  Direction, north, south, west, east, connection, get_index, direction_index, row_of, col_of,
  neighbor_index,
}
use c_course_projects.Maze.Solver.{Maze, room, no_room, is_opening, Result, try_directions, dfs}
use c_course_projects.Maze.Grid.{InGrid, direction_index-InGrid}
use c_course_projects.Maze.Rooms.{
  unvisited, unvisited-set_new, Changes, Changes-refl, Changes-trans, Changes-set,
}
use c_course_projects.Maze.Trail.{
  IsGrid, IsGrid-Changes, at_goal, through, IsClosed, IsClosed-trans, Ends, CallEnds, kept_all,
  widen,
}
use c_course_projects.Maze.Looped.{
  true-not_false, here-lt, pointed, pointed-Changes, neighbor-at, pointed-next, pointed-visited,
  Looped, Looped-after, Looped-Ends,
}

module _ (goal_row goal_col num_rows num_cols : ℕ) where
  module _ (row col : ℕ) (g : InGrid num_rows num_cols row col) where
    abbrev here : ℕ
    here = get_index row col num_cols

    module _ (fuel : ℕ) (call : ℕ → ℕ → Maze → Result)
        (calls : CallEnds goal_row goal_col num_rows num_cols fuel call) where
      try_directions-Ends :
          (dirs : List Direction) (m : Maze)
          → IsGrid goal_row goal_col num_rows num_cols m
          → (room m here).visited ≡ true
          → unvisited m ≤ fuel
          → Looped goal_row goal_col num_rows num_cols row col g dirs m
              (try_directions goal_row goal_col num_rows num_cols call row col dirs m)
      unfolding try_directions neighbor_index
      try_directions-Ends [] m grid old few = (
        record {
          found = false;
          maze = m;
          result_eq = refl;
          changes = Changes-refl here m;
          entered = old;
          leads = λ h. cc;
          closed = λ f r c gr new now. cc;
        },
        λ f. tt,
      )
      try_directions-Ends (dir ∷ dirs) m grid old few =
          let p = pointed goal_row goal_col num_rows num_cols row col g m dir in
          let cp = pointed-Changes goal_row goal_col num_rows num_cols row col g m dir grid in
          let gp = IsGrid-Changes goal_row goal_col num_rows num_cols cp grid in
          let oldp = cp.stays here old in
          let n = neighbor_index num_cols row col dir in
          let no_new : IsClosed goal_row goal_col num_rows num_cols m p = λ r c gr new now. absurd (
            true-not_false goal_row goal_col num_rows num_cols (
              sym now
              ∙ pointed-visited goal_row goal_col num_rows num_cols row col g m dir grid
                  (get_index r c num_cols)
              ∙ new)) in
          let nb = neighbor-at goal_row goal_col num_rows num_cols row col g m dir grid in
          elim (Bool-cases (direction_index row col dir num_rows num_cols)) [
            | inr d ↦
                Looped-after goal_row goal_col num_rows num_cols row col g dir dirs
                  (Changes-refl here m) (λ r c gr new now. cc) (λ go. cc)
                  (try_directions-Ends dirs m grid old few) (rw (d, try_directions) refl)
            | inl d ↦
                elim (Bool-cases (
                  is_opening (connection (room p here).connections dir)
                  && not (room p n).visited)) [
                    | inr v ↦
                        Looped-after goal_row goal_col num_rows num_cols row col g dir dirs cp
                          no_new (λ go op. ground arith)
                          (try_directions-Ends dirs p gp oldp (omega (arith, cp.fewer)))
                          (rw (d, nb, v, try_directions) refl)
                    | inl v ↦
                        let op : is_opening (connection (room p here).connections dir) ≡ true =
                          ground arith in
                        let new : (room p n).visited ≡ false = ground arith in
                        let gn = direction_index-InGrid row col dir num_rows num_cols g d in
                        let place = gp.places (row_of row dir) (col_of col dir) gn in
                        let e =
                          calls (row_of row dir) (col_of col dir) p gn gp new
                            (omega (arith, cp.fewer)) in
                        let same : call (room p n).r (room p n).c p
                            ≡ call (row_of row dir) (col_of col dir) p =
                          ap (λ r. call r (room p n).c p) place.0
                          ∙ ap (λ c. call (row_of row dir) c p) place.1 in
                        let eq = same ∙ e.result_eq in
                        let ch : Changes here m e.maze =
                          Changes-trans cp
                            (widen goal_row goal_col num_rows num_cols e.changes new) in
                        elim (Bool-cases e.found) [
                          | inl f ↦ (
                            record {
                              found = true;
                              maze = e.maze;
                              result_eq =
                                  rw (d, nb, v, eq ∙ ap (λ b. some (b, e.maze)) f, try_directions)
                                    refl;
                              changes = ch;
                              entered = ch.stays here old;
                              closed = λ f. cc;
                              leads = λ _.
                                  through dir d
                                    (ap (λ k. is_opening (connection k dir)) (e.changes.walls here)
                                      ∙ op)
                                    (ap (λ x. x.next)
                                        (kept_all goal_row goal_col num_rows num_cols e.changes new
                                          here oldp)
                                      ∙ pointed-next goal_row goal_col num_rows num_cols row col g m
                                          dir grid)
                                    (e.leads f);
                            },
                            λ f. cc,
                          )
                          | inr f ↦
                              Looped-after goal_row goal_col num_rows num_cols row col g dir dirs ch
                                (IsClosed-trans goal_row goal_col num_rows num_cols m e.changes
                                  no_new (e.closed f))
                                (λ go op. e.entered)
                                (try_directions-Ends dirs e.maze
                                  (IsGrid-Changes goal_row goal_col num_rows num_cols ch grid)
                                  (ch.stays here old) (omega (arith, ch.fewer)))
                                (rw (d, nb, v, eq ∙ ap (λ b. some (b, e.maze)) f, try_directions)
                                  refl)
                        ]
                  ]
          ]

  pub dfs-CallEnds :
      (fuel : ℕ)
      → CallEnds goal_row goal_col num_rows num_cols fuel
          (dfs goal_row goal_col num_rows num_cols fuel)
  unfolding dfs
  dfs-CallEnds zero row col m g grid new few =
      let lt = here-lt goal_row goal_col num_rows num_cols row col g m grid in
      let entered = record (room m (get_index row col num_cols)) { visited = true } in
      absurd (omega (arith, unvisited-set_new m (get_index row col num_cols) entered lt refl new))
  dfs-CallEnds (suc fuel) row col m g grid new few =
      let i = get_index row col num_cols in
      let lt = here-lt goal_row goal_col num_rows num_cols row col g m grid in
      let entered = record (room m i) { visited = true } in
      let won = record (room m i) { next = some i; visited = true } in
      let fewer = unvisited-set_new m i entered lt refl new in
      let ch = Changes-set m i entered lt refl refl refl (λ _. refl) (omega arith) in
      elim (Bool-cases ((row == goal_row) && (col == goal_col))) [
        | inl goal ↦
            rw (goal, dfs)
              (record {
                found = true;
                maze = set m i won;
                result_eq = refl;
                changes =
                    Changes-set m i won lt refl refl refl (λ _. refl)
                      (omega (arith, unvisited-set_new m i won lt refl new));
                entered = ap (λ x. x.visited) (get_or-set_self m i won no_room lt);
                leads = λ _. at_goal (ground arith) (ground arith);
                closed = λ f. cc;
              })
        | inr more ↦
            rw (more, dfs)
              (Looped-Ends goal_row goal_col num_rows num_cols row col g m grid new
                (λ er ec. ground arith)
                (try_directions-Ends row col g fuel (dfs goal_row goal_col num_rows num_cols fuel)
                  (dfs-CallEnds fuel) (north ∷ south ∷ west ∷ east ∷ []) (set m i entered)
                  (IsGrid-Changes goal_row goal_col num_rows num_cols ch grid)
                  (ap (λ x. x.visited) (get_or-set_self m i entered no_room lt)) (omega arith)))
      ]

  -- In an array with a room for each place of the grid, which knows its place, `dfs` ends from
  -- an unvisited room of the grid, with one unit of fuel for each unvisited room. It visits the
  -- room, and leaves the places and connections of all rooms and everything of the visited rooms
  -- but its own alone. If it finds the goal, the `next` fields lead there through openings; if
  -- not, no room that it visited is the goal, and all neighbors of those rooms behind openings
  -- are visited.
  pub dfs-Ends :
      (row col : ℕ) (m : Maze)
      → InGrid num_rows num_cols row col
      → IsGrid goal_row goal_col num_rows num_cols m
      → (room m (get_index row col num_cols)).visited ≡ false
      → Ends goal_row goal_col num_rows num_cols row col m
          (dfs goal_row goal_col num_rows num_cols (unvisited m) row col m)
  dfs-Ends row col m g grid new = dfs-CallEnds (unvisited m) row col m g grid new (omega arith)

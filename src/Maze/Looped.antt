-- ===== src/Maze/Looped.antt =====
-- The search at one room: what it writes there, and what its loop over the directions ends with.
use c_course_projects.Common.{
  ℕ, ◌<◌, ◌≡◌, ◌≢◌, refl, subst, ap, true, false, some, List, [], ◌∷◌, arith, length, set, ◌∙◌,
  get_or-set_self, inl, inr,
}
use c_course_projects.Maze.{
  Direction, north, south, west, east, get_index, neighbor_index, get_neighbor,
}
use c_course_projects.Maze.Solver.{Room, Maze, room, no_room, Result}
use c_course_projects.Maze.Grid.{InGrid, get_index-injective, get_index-lt, get_neighbor-InGrid}
use c_course_projects.Maze.Rooms.{
  unvisited-set_kept, unvisited-set_new, Changes, Changes-trans, Changes-set, room-set,
}
use c_course_projects.Maze.Shuffle.{Each}
use c_course_projects.Maze.Trail.{
  IsGrid, Passed, IsPassed, IsClosed, Passed-kept, IsClosed-trans, Ends,
}

module _ (goal_row goal_col num_rows num_cols : ℕ) where
  pub true-not_false : true ≢ false
  true-not_false e = cc

  module _ (row col : ℕ) (g : InGrid num_rows num_cols row col) where
    abbrev pub here : ℕ
    here = get_index row col num_cols

    abbrev pub pointed : Maze → Direction → Maze
    pointed m dir =
        set m here (record (room m here) { next = some (neighbor_index num_cols row col dir) })

    pub here-lt : (m : Maze) → IsGrid goal_row goal_col num_rows num_cols m → here < length m
    here-lt m grid = rw grid.size (get_index-lt num_rows num_cols row col g)

    pub pointed-Changes :
        (m : Maze) (dir : Direction)
        → IsGrid goal_row goal_col num_rows num_cols m
        → Changes here m (pointed m dir)
    pointed-Changes m dir grid =
        Changes-set m here _ (here-lt m grid) refl refl refl (λ h. h)
          (omega (
            arith,
            unvisited-set_kept m here
                (record (room m here) { next = some (neighbor_index num_cols row col dir) }) refl,
          ))

    pub neighbor-at :
        (m : Maze) (dir : Direction)
        → IsGrid goal_row goal_col num_rows num_cols m
        → get_neighbor num_rows num_cols (room m here).r (room m here).c dir
          ≡ some (neighbor_index num_cols row col dir)
    neighbor-at m dir grid =
        let (hr, hc) = grid.places row col g in
        rw (hr, hc) (get_neighbor-InGrid num_rows num_cols row col dir g)

    pub pointed-next :
        (m : Maze) (dir : Direction)
        → IsGrid goal_row goal_col num_rows num_cols m
        → (room (pointed m dir) here).next ≡ some (neighbor_index num_cols row col dir)
    pointed-next m dir grid = ap (λ x. x.next) (get_or-set_self m here _ no_room (here-lt m grid))

    pub pointed-visited :
        (m : Maze) (dir : Direction)
        → IsGrid goal_row goal_col num_rows num_cols m
        → (i : ℕ) → (room (pointed m dir) i).visited ≡ (room m i).visited
    pointed-visited m dir grid i =
        elim (room-set m here i
          (record (room m here) { next = some (neighbor_index num_cols row col dir) })
          (here-lt m grid)) [
            | inl (eq, at) ↦ ap (λ x. x.visited) at ∙ ap (λ k. (room m k).visited) eq
            | inr (ne, at) ↦ ap (λ x. x.visited) at
          ]

    -- The loop over the directions ends; without the goal the room is passed in each of them.
    abbrev pub Looped : List Direction → Maze → Result → Type 0
    Looped dirs m result =
        (e : Ends goal_row goal_col num_rows num_cols row col m result) × (e.found ≡ false
          → Each (Passed goal_row goal_col num_rows num_cols e.maze row col) dirs)

    -- What comes before the rest of the loop.
    pub Looped-after :
        {m m' : Maze} {result result' : Result} (dir : Direction) (dirs : List Direction)
        → Changes here m m'
        → IsClosed goal_row goal_col num_rows num_cols m m'
        → Passed goal_row goal_col num_rows num_cols m' row col dir
        → Looped dirs m' result'
        → result ≡ result'
        → Looped (dir ∷ dirs) m result
    Looped-after {m} dir dirs ch closed p (e, each) eq = (
      record {
        found = e.found;
        maze = e.maze;
        result_eq = eq ∙ e.result_eq;
        changes = Changes-trans ch e.changes;
        entered = e.entered;
        leads = e.leads;
        closed =
            λ f. IsClosed-trans goal_row goal_col num_rows num_cols m e.changes closed (e.closed f);
      },
      λ f. (Passed-kept goal_row goal_col num_rows num_cols row col dir e.changes p, each f),
    )

    -- The search of an unvisited room that is not the goal.
    module _ (m : Maze) (grid : IsGrid goal_row goal_col num_rows num_cols m)
        (new : (room m here).visited ≡ false) (not_goal : (row ≡ goal_row) → col ≢ goal_col) where
      abbrev opened : Room
      opened = record (room m here) { visited = true }

      opened-Changes : Changes here m (set m here opened)
      opened-Changes =
          Changes-set m here opened (here-lt m grid) refl refl refl (λ _. refl)
            (omega (arith, unvisited-set_new m here opened (here-lt m grid) refl new))

      pub Looped-Ends :
          {result : Result}
          → Looped (north ∷ south ∷ west ∷ east ∷ []) (set m here opened) result
          → Ends goal_row goal_col num_rows num_cols row col m result
      Looped-Ends (e, each) = record {
        found = e.found;
        maze = e.maze;
        result_eq = e.result_eq;
        changes = Changes-trans opened-Changes e.changes;
        entered = e.entered;
        leads = e.leads;
        closed = λ f r c gr before now.
            elim (room-set m here (get_index r c num_cols) opened (here-lt m grid)) [
              | inr (ne, at) ↦ e.closed f r c gr (ap (λ x. x.visited) at ∙ before) now
              | inl (eq, at) ↦
                  let (er, ec) = get_index-injective num_rows num_cols row col r c g gr eq in
                  subst (λ x. IsPassed goal_row goal_col num_rows num_cols e.maze x c) er
                    (subst (λ y. IsPassed goal_row goal_col num_rows num_cols e.maze row y) ec
                      (not_goal, passed_all e.maze (each f)))
            ];
      }
        where
          passed_all :
              (m' : Maze)
              → Each
                  (Passed goal_row goal_col num_rows num_cols m' row col)
                  (north ∷ south ∷ west ∷ east ∷ [])
              → (dir : Direction) → Passed goal_row goal_col num_rows num_cols m' row col dir
          passed_all m' p north = p.0
          passed_all m' p south = p.1.0
          passed_all m' p west = p.1.1.0
          passed_all m' p east = p.1.1.1.0

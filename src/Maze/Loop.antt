-- ===== src/Maze/Loop.antt =====
-- maze/generator.c: the loop over the directions ends, and sets a connection in each.
use c_course_projects.Common.{
  ℕ, ◌≤◌, ◌≡◌, inl, inr, refl, ◌∙◌, true, arith, List, [], ◌∷◌, Option, some, Bool-cases,
}
use c_course_projects.Maze.{Direction, get_index, direction_index, row_of, col_of}
use c_course_projects.Maze.Solver.{room}
use c_course_projects.Maze.Grid.{InGrid}
use c_course_projects.Maze.Rooms.{unvisited}
use c_course_projects.Maze.Generator.{Random, Walk, walk_directions}
use c_course_projects.Maze.Shuffle.{Each}
use c_course_projects.Maze.Walk.{
  IsReady, IsReady-tail, IsDone, Ends, walk-border, walk-copy, loop_border, loop_copy, loop_call,
}
use c_course_projects.Maze.Sound.{visited, IsSound, Advances, Advances-refl, Advances-trans}

module _ (rand : Random) (num_rows num_cols : ℕ) where
  module _ (n : ℕ) (call : ℕ → ℕ → Walk → Option Walk) (ends : Ends rand num_rows num_cols n call)
      (row col : ℕ) (g : InGrid num_rows num_cols row col) where
    abbrev here : ℕ
    here = get_index row col num_cols

    abbrev pub Looped : List Direction → Walk → Type 0
    Looped dirs w =
        (w' : Walk) × (walk_directions rand num_rows num_cols call row col dirs w ≡ some w')
        × Advances num_rows num_cols row col w.maze w'.maze
        × Each (IsDone rand num_rows num_cols row col w'.maze) dirs

    -- One pass of the loop, and the rest of it.
    pass :
        (d : Direction) (dirs : List Direction) (w w1 : Walk)
        → (room w.maze here).visited ≡ true
        → walk_directions rand num_rows num_cols call row col (d ∷ dirs) w
          ≡ walk_directions rand num_rows num_cols call row col dirs w1
        → Advances num_rows num_cols row col w.maze w1.maze
        → IsDone rand num_rows num_cols row col w1.maze d
        → Looped dirs w1
        → Looped (d ∷ dirs) w
    pass d dirs w w1 h e p f (w', e', q, rest) = (
      w',
      e ∙ e',
      Advances-trans num_rows num_cols h p q,
      ((q.set_stays d f.0, λ go. q.stays _ (f.1 go)), rest),
    )

    pub walk_directions-Looped :
        (dirs : List Direction) (w : Walk)
        → IsSound num_rows num_cols w.maze
        → (room w.maze here).visited ≡ true
        → unvisited w.maze ≤ n
        → IsReady num_rows num_cols row col w.maze dirs
        → Looped dirs w
    unfolding walk_directions
    walk_directions-Looped [] w s h enough ready =
        (w, refl, Advances-refl num_rows num_cols row col w.maze s, tt)
    walk_directions-Looped (d ∷ dirs) w s h enough ready =
        elim (Bool-cases (direction_index row col d num_rows num_cols)) [
          | inr b ↦
              let (a, f, o) =
                loop_border rand num_rows num_cols n call ends row col g d dirs w s h ready b in
              pass d dirs w _ h
                (walk-border rand num_rows num_cols n call ends row col g d dirs w s h ready b) a f
                (walk_directions-Looped dirs _ a.sound (a.stays here h)
                  (omega (arith, enough, a.fewer))
                  (IsReady-tail num_rows num_cols row col w.maze _ d dirs ready o))
          | inl go ↦
              elim (Bool-cases (visited num_rows num_cols w.maze (row_of row d) (col_of col d))) [
                | inl v ↦
                    let (a, f, o) =
                      loop_copy rand num_rows num_cols n call ends row col g d dirs w s h ready go
                        v in
                    pass d dirs w _ h
                      (walk-copy rand num_rows num_cols n call ends row col g d dirs w s h ready go
                        v)
                      a f
                      (walk_directions-Looped dirs _ a.sound (a.stays here h)
                        (omega (arith, enough, a.fewer))
                        (IsReady-tail num_rows num_cols row col w.maze _ d dirs ready o))
                | inr v ↦
                    let (w', e, a, f, o) =
                      loop_call rand num_rows num_cols n call ends row col g d dirs w s h ready go v
                        enough in
                    pass d dirs w w' h e a f (
                      walk_directions-Looped dirs w' a.sound (a.stays here h)
                        (omega (arith, enough, a.fewer))
                        (IsReady-tail num_rows num_cols row col w.maze _ d dirs ready o))
              ]
        ]

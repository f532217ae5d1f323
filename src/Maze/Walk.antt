-- ===== src/Maze/Walk.antt =====
-- maze/generator.c: one pass of the loop over the directions, in each of its three cases.
use c_course_projects.Common.{
  ℕ, suc, ◌<◌, ◌≤◌, ◌≡◌, ◌≢◌, refl, ap, sym, ◌∙◌, true, false, arith, List, ◌∷◌, length, set,
  Option, some,
}
use c_course_projects.Maze.{
  Direction, Connection, unset, opening, wall, connection, get_index, direction_index, get_neighbor,
  neighbor_index, row_of, col_of,
}
use c_course_projects.Maze.Solver.{Room, Maze, room}
use c_course_projects.Maze.Grid.{InGrid, direction_index-InGrid, get_neighbor-InGrid}
use c_course_projects.Maze.Rooms.{unvisited, unvisited-set_kept}
use c_course_projects.Maze.Generator.{
  Random, Walk, at, copied, get_opposite_dir, connect, walk_directions,
}
use c_course_projects.Maze.Sound.{conn, visited, GoesOn, IsSound, Advances, Advances-trans, through}
use c_course_projects.Maze.Connect.{
  field_kept, connected-Advances, conn-connected_other, conn-connected_self,
}
use c_course_projects.Maze.Place.{
  Walked, placed-IsSound, placed-KeepsOpenings, placed-visited, placed_self, walked-Advances,
}

wall-set : wall ≢ unset
wall-set e = cc

opening-set : opening ≢ unset
opening-set e = cc

copied-set : (k : Connection) → copied k ≢ unset
copied-set unset e = cc
copied-set opening e = cc
copied-set wall e = cc

copied-same : (k : Connection) → k ≢ unset → copied k ≡ k
copied-same unset z = absurd (z refl)
copied-same opening z = refl
copied-same wall z = refl

module _ (num_rows num_cols row col : ℕ) where
  -- The directions of the list are different, and none of their connections is set.
  pub record IsReady (m : Maze) (dirs : List Direction) : Type 0 where
    pub not_set : (i : ℕ) → i < length dirs → conn num_rows num_cols m row col (at dirs i) ≡ unset
    pub apart : (i j : ℕ) → i < j → j < length dirs → at dirs i ≢ at dirs j

  -- The connections in the other directions stay as they are.
  abbrev pub Others : Direction → Maze → Maze → Type 0
  Others d m m' =
      (d' : Direction)
      → d' ≢ d
      → conn num_rows num_cols m' row col d' ≡ conn num_rows num_cols m row col d'

  pub IsReady-tail :
      (m m' : Maze) (d : Direction) (dirs : List Direction)
      → IsReady m (d ∷ dirs)
      → Others d m m'
      → IsReady m' dirs
  IsReady-tail m m' d dirs p others = record {
    not_set = λ i h.
        others (at dirs i) (λ e. p.apart 0 (suc i) (omega arith) (omega arith) (sym e))
        ∙ p.not_set (suc i) (omega arith);
    apart = λ i j h k. p.apart (suc i) (suc j) (omega arith) (omega arith);
  }

module _ (rand : Random) (num_rows num_cols : ℕ) where
  -- The connection is set, and the room beside it is visited.
  abbrev pub IsDone : ℕ → ℕ → Maze → Direction → Type 0
  IsDone row col m d =
      (conn num_rows num_cols m row col d ≢ unset)
      × (GoesOn num_rows num_cols row col d
          → visited num_rows num_cols m (row_of row d) (col_of col d) ≡ true)

  -- A call at an unvisited room ends, where the rooms left are at most `n`.
  abbrev pub Ends : ℕ → (ℕ → ℕ → Walk → Option Walk) → Type 0
  Ends n call =
      (row col : ℕ) (w : Walk)
      → InGrid num_rows num_cols row col
      → IsSound num_rows num_cols w.maze
      → visited num_rows num_cols w.maze row col ≡ false
      → unvisited w.maze ≤ n
      → (w' : Walk) × (call row col w ≡ some w') × Walked num_rows num_cols row col w.maze w'.maze

  module _ (n : ℕ) (call : ℕ → ℕ → Walk → Option Walk) (ends : Ends n call) (row col : ℕ)
      (g : InGrid num_rows num_cols row col) where
    abbrev pub here : ℕ
    here = get_index row col num_cols

    module _ (d : Direction) (dirs : List Direction) (w : Walk)
        (s : IsSound num_rows num_cols w.maze) (h : (room w.maze here).visited ≡ true)
        (ready : IsReady num_rows num_cols row col w.maze (d ∷ dirs)) where
      abbrev beside : Connection
      beside = conn num_rows num_cols w.maze (row_of row d) (col_of col d) (get_opposite_dir d)

      abbrev pub with_value : Connection → Walk
      with_value v = record w { maze = connect rand num_rows num_cols w.maze here d v }

      neighbor :
          get_neighbor num_rows num_cols (room w.maze here).r (room w.maze here).c d
          ≡ some (neighbor_index num_cols row col d)
      neighbor =
          let p = s.places row col g h in
          ap (λ r. get_neighbor num_rows num_cols r (room w.maze here).c d) p.0
          ∙ ap (λ c. get_neighbor num_rows num_cols row c d) p.1
          ∙ get_neighbor-InGrid num_rows num_cols row col d g

      pub walk-border :
          direction_index row col d num_rows num_cols ≡ false
          → walk_directions rand num_rows num_cols call row col (d ∷ dirs) w
            ≡ walk_directions rand num_rows num_cols call row col dirs (with_value wall)
      unfolding walk_directions
      walk-border b = rw b

      pub walk-copy :
          GoesOn num_rows num_cols row col d
          → visited num_rows num_cols w.maze (row_of row d) (col_of col d) ≡ true
          → walk_directions rand num_rows num_cols call row col (d ∷ dirs) w
            ≡ walk_directions rand num_rows num_cols call row col dirs (with_value (copied beside))
      unfolding walk_directions neighbor_index
      walk-copy go v = rw (go, neighbor, v)

      abbrev next_index : ℕ
      next_index = get_index (row_of row d) (col_of col d) num_cols

      abbrev opened : Maze
      opened = connect rand num_rows num_cols w.maze here d opening

      abbrev next_room : Room
      next_room = record (room opened next_index) { r = row_of row d; c = col_of col d }

      abbrev moved : Walk
      moved = record w { maze = set opened next_index next_room }

      walk-call :
          (w' : Walk)
          → GoesOn num_rows num_cols row col d
          → visited num_rows num_cols w.maze (row_of row d) (col_of col d) ≡ false
          → room moved.maze next_index ≡ next_room
          → call (row_of row d) (col_of col d) moved ≡ some w'
          → walk_directions rand num_rows num_cols call row col (d ∷ dirs) w
            ≡ walk_directions rand num_rows num_cols call row col dirs w'
      unfolding walk_directions neighbor_index
      walk-call w' go v self e =
          let e' : call (room moved.maze next_index).r (room moved.maze next_index).c moved
              ≡ some w' =
            rw self e in
          rw (go, neighbor, v, e')

      -- Setting a connection of the room where the walk is.
      connect-Advances :
          (v : Connection)
          → v ≢ unset
          → (GoesOn num_rows num_cols row col d → beside ≢ unset → v ≡ beside)
          → (direction_index row col d num_rows num_cols ≡ false → v ≡ wall)
          → Advances num_rows num_cols row col w.maze (with_value v).maze
            × (conn num_rows num_cols (with_value v).maze row col d ≡ v)
            × Others num_rows num_cols row col d w.maze (with_value v).maze
      unfolding connect
      connect-Advances v is_set matches bordered = (
        connected-Advances num_rows num_cols row col g w.maze s h d v
            (ready.not_set 0 (omega arith)) is_set matches bordered,
        conn-connected_self num_rows num_cols row col g w.maze s h d v,
        conn-connected_other num_rows num_cols row col g w.maze s h d v,
      )

      pub loop_border :
          direction_index row col d num_rows num_cols ≡ false
          → Advances num_rows num_cols row col w.maze (with_value wall).maze
            × IsDone row col (with_value wall).maze d
            × Others num_rows num_cols row col d w.maze (with_value wall).maze
      loop_border b =
          let (a, z, o) = connect-Advances wall (λ e. cc) (λ go. cc) (λ x. refl) in
          (a, (λ e. wall-set (sym z ∙ e), λ go. cc), o)

      pub loop_copy :
          GoesOn num_rows num_cols row col d
          → visited num_rows num_cols w.maze (row_of row d) (col_of col d) ≡ true
          → Advances num_rows num_cols row col w.maze (with_value (copied beside)).maze
            × IsDone row col (with_value (copied beside)).maze d
            × Others num_rows num_cols row col d w.maze (with_value (copied beside)).maze
      loop_copy go v =
          let (a, z, o) =
            connect-Advances (copied beside) (copied-set beside) (λ x. copied-same beside)
              (λ b. cc) in
          (a, (λ e. copied-set beside (sym z ∙ e), λ go'. a.stays _ v), o)

      opened-visited : (i : ℕ) → (room opened i).visited ≡ (room w.maze i).visited
      unfolding connect
      opened-visited i =
          field_kept num_rows num_cols row col g w.maze s h d opening (λ x. x.visited) refl i

      -- The call in the room beside, from the array with that room's place written.
      pub loop_call :
          GoesOn num_rows num_cols row col d
          → visited num_rows num_cols w.maze (row_of row d) (col_of col d) ≡ false
          → unvisited w.maze ≤ n
          → (w' : Walk) × (walk_directions rand num_rows num_cols call row col (d ∷ dirs) w
              ≡ walk_directions rand num_rows num_cols call row col dirs w')
            × Advances num_rows num_cols row col w.maze w'.maze
            × IsDone row col w'.maze d
            × Others num_rows num_cols row col d w.maze w'.maze
      loop_call go v enough =
          let gn = direction_index-InGrid row col d num_rows num_cols g go in
          let none_set = s.blank _ _ gn v (get_opposite_dir d) in
          let (a, z, o) =
            connect-Advances opening (λ e. cc) (λ x y. absurd (y none_set)) (λ b. cc) in
          let v' : visited num_rows num_cols opened (row_of row d) (col_of col d) ≡ false =
            opened-visited next_index ∙ v in
          let so =
            placed-IsSound num_rows num_cols _ _ gn opened a.sound v' next_room refl refl refl in
          let self =
            placed_self num_rows num_cols _ _ gn opened a.sound v' next_room refl refl refl in
          let stays_moved =
            placed-visited num_rows num_cols _ _ gn opened a.sound v' next_room refl refl refl in
          let (w', e, p) =
            ends (row_of row d) (col_of col d) moved gn so (ap (λ x. x.visited) self ∙ v') (
              omega
                (arith, a.fewer, enough, unvisited-set_kept opened next_index next_room refl)) in
          let moved-opens =
            placed-KeepsOpenings num_rows num_cols _ _ gn opened a.sound v' next_room refl refl
              refl in
          let call_others : (d' : Direction)
              → conn num_rows num_cols w'.maze row col d'
                ≡ conn num_rows num_cols opened row col d' =
            λ d'.
              ap (λ x. connection x.connections d')
                (p.kept here
                    (ap (λ x. x.visited) (stays_moved here (a.stays here h)) ∙ a.stays here h)
                  ∙ stays_moved here (a.stays here h)) in
          let b =
            walked-Advances num_rows num_cols _ _ gn opened a.sound v' next_room refl refl refl v'
              w'.maze p row col (a.stays here h)
              (λ r c way. through d go (p.opens here d (moved-opens here d z)) way) in
          (
            w',
            walk-call w' go v self e,
            Advances-trans num_rows num_cols h a b,
            (b.set_stays d (λ e. opening-set (sym z ∙ e)), λ go'. p.entered),
            λ d' other. call_others d' ∙ o d' other,
          )

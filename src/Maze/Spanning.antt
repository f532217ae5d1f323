-- ===== src/Maze/Spanning.antt =====
-- maze/generator.c: `drunken_walk` ends, and from a fresh maze it finishes every room.
use c_course_projects.Common.{
  ℕ, zero, suc, ◌+◌, ◌<◌, ◌≡◌, inl, inr, refl, ap, sym, ◌∙◌, subst, true, false, arith, List,
  length, set, none,
}
use c_course_projects.Maze.{Direction, get_index}
use c_course_projects.Maze.Solver.{Room, room}
use c_course_projects.Maze.Grid.{InGrid, get_index-injective}
use c_course_projects.Maze.Rooms.{room-set, unvisited, unvisited-set_new}
use c_course_projects.Maze.Generator.{Random, Walk, at, shuffle_array, drunken_walk}
use c_course_projects.Maze.Shuffle.{Each, shuffle_array-IsShuffle}
use c_course_projects.Maze.Distinct.{four, four-IsShuffle, Each-shuffle, IsShuffle-apart}
use c_course_projects.Maze.Sound.{
  visited, IsSound, IsFinished, Advances, KeepsOpenings, Reaches, stop,
}
use c_course_projects.Maze.Place.{
  Walked, placed-IsSound, placed_self, placed-visited, placed-KeepsOpenings, conn-placed,
  place_in_array,
}
use c_course_projects.Maze.Walk.{IsReady, IsDone, Ends}
use c_course_projects.Maze.Loop.{walk_directions-Looped}

module _ (rand : Random) (num_rows num_cols : ℕ) where
  module _ (row col : ℕ) (w : Walk) (g : InGrid num_rows num_cols row col)
      (s : IsSound num_rows num_cols w.maze)
      (new : visited num_rows num_cols w.maze row col ≡ false) where
    abbrev here : ℕ
    here = get_index row col num_cols

    abbrev entered_room : Room
    entered_room = record (room w.maze here) { visited = true; r = row; c = col; next = none }

    abbrev entered : Walk
    entered = record { maze = set w.maze here entered_room; calls = w.calls + 4 }

    abbrev dirs : List Direction
    dirs = shuffle_array rand w.calls four

    entered-IsSound : IsSound num_rows num_cols entered.maze
    entered-IsSound =
        placed-IsSound num_rows num_cols row col g w.maze s new entered_room refl refl refl

    entered_self : room entered.maze here ≡ entered_room
    entered_self = placed_self num_rows num_cols row col g w.maze s new entered_room refl refl refl

    in_array : here < length w.maze
    in_array = place_in_array num_rows num_cols row col g w.maze s new entered_room refl refl refl

    entered-unvisited : suc (unvisited entered.maze) ≡ unvisited w.maze
    entered-unvisited = unvisited-set_new w.maze here entered_room in_array refl new

    entered-kept : (i : ℕ) → (room w.maze i).visited ≡ true → room entered.maze i ≡ room w.maze i
    entered-kept =
        placed-visited num_rows num_cols row col g w.maze s new entered_room refl refl refl

    entered-KeepsOpenings : KeepsOpenings num_rows num_cols w.maze entered.maze
    entered-KeepsOpenings =
        placed-KeepsOpenings num_rows num_cols row col g w.maze s new entered_room refl refl refl

    entered-IsReady : IsReady num_rows num_cols row col entered.maze dirs
    entered-IsReady = record {
      not_set = λ i h.
          conn-placed num_rows num_cols row col g w.maze s new entered_room refl refl refl row col
            (at dirs i)
          ∙ s.blank row col g new (at dirs i);
      apart = IsShuffle-apart dirs (shuffle_array-IsShuffle rand w.calls four four-IsShuffle);
    }

    -- The loop from the entered room is a whole call of the walk.
    Looped-Walked :
        (w' : Walk)
        → Advances num_rows num_cols row col entered.maze w'.maze
        → Each (IsDone rand num_rows num_cols row col w'.maze) dirs
        → Walked num_rows num_cols row col w.maze w'.maze
    Looped-Walked w' a each = record {
      stays = λ i h. a.stays i (ap (λ x. x.visited) (entered-kept i h) ∙ h);
      kept = λ i h.
          a.kept i (λ e. cc (sym new ∙ ap (λ j. (room w.maze j).visited) (sym e) ∙ h))
            (ap (λ x. x.visited) (entered-kept i h) ∙ h)
          ∙ entered-kept i h;
      entered = a.stays here (ap (λ x. x.visited) entered_self);
      done = λ r c g' old now.
          elim (room-set w.maze here (get_index r c num_cols) entered_room in_array) [
            | inl (eq, at) ↦
                let (er, ec) = get_index-injective num_rows num_cols row col r c g g' eq in
                subst (λ x. IsFinished num_rows num_cols w'.maze x c) er
                  (subst (λ y. IsFinished num_rows num_cols w'.maze row y) ec
                    (Each-shuffle (IsDone rand num_rows num_cols row col w'.maze) dirs
                      (shuffle_array-IsShuffle rand w.calls four four-IsShuffle) each))
            | inr (ne, at) ↦ a.done r c g' (ap (λ x. x.visited) at ∙ old) now
          ];
      reach = λ r c g' old now.
          elim (room-set w.maze here (get_index r c num_cols) entered_room in_array) [
            | inl (eq, at) ↦
                let (er, ec) = get_index-injective num_rows num_cols row col r c g g' eq in
                subst (λ x. Reaches num_rows num_cols w'.maze row col x c) er
                  (subst (λ y. Reaches num_rows num_cols w'.maze row col row y) ec stop)
            | inr (ne, at) ↦ a.reach r c g' (ap (λ x. x.visited) at ∙ old) now
          ];
      opens = λ i d o. a.opens i d (entered-KeepsOpenings i d o);
      sound = a.sound;
      fewer = omega (arith, a.fewer, entered-unvisited);
    }

  -- Where the rooms that are left are at most the fuel, the walk from an unvisited room ends.
  pub drunken_walk-Ends :
      (fuel : ℕ) → Ends rand num_rows num_cols fuel (drunken_walk rand num_rows num_cols fuel)
  unfolding drunken_walk
  drunken_walk-Ends zero row col w g s new enough =
      absurd (omega (arith, enough, entered-unvisited row col w g s new))
  drunken_walk-Ends (suc fuel) row col w g s new enough =
      let (w', e, a, each) =
        walk_directions-Looped rand num_rows num_cols fuel
          (drunken_walk rand num_rows num_cols fuel) (drunken_walk-Ends fuel) row col g
          (dirs row col w g s new) (entered row col w g s new) (entered-IsSound row col w g s new)
          (ap (λ x. x.visited) (entered_self row col w g s new))
          (omega (arith, enough, entered-unvisited row col w g s new))
          (entered-IsReady row col w g s new) in
      (w', e, Looped-Walked row col w g s new w' a each)

-- ===== src/Maze/Rooms.antt =====
-- Reading and writing one room of the array, and how the array may change during a search.
use c_course_projects.Common.{
  ℕ, zero, suc, ◌<◌, ◌≤◌, ◌≡◌, ◌≢◌, refl, sym, ◌∙◌, ap, true, false, [], ◌∷◌, arith, length,
  length-set, set, get_or-set_self, get_or-set_ne, if◌then◌else◌, ◌==◌, ==_iff, Bool-cases, inl,
  inr, ◌⊎◌,
}
use c_course_projects.Maze.Solver.{Room, Maze, room, no_room}

-- The rooms that are not visited.
abbrev pub unvisited : Maze → ℕ
unvisited [] = 0
unvisited (m ∷ maze) = if m.visited then unvisited maze else suc (unvisited maze)

-- A write to a visited room that leaves it visited.
pub unvisited-set_kept :
    (maze : Maze) (i : ℕ) (v : Room)
    → v.visited ≡ (room maze i).visited
    → unvisited (set maze i v) ≡ unvisited maze
unvisited-set_kept [] i v h = refl
unvisited-set_kept (m ∷ maze) zero v h = rw h
unvisited-set_kept (m ∷ maze) (suc i) v h = rw (unvisited-set_kept maze i v h)

pub unvisited-set_new :
    (maze : Maze) (i : ℕ) (v : Room)
    → i < length maze
    → v.visited ≡ true
    → (room maze i).visited ≡ false
    → suc (unvisited (set maze i v)) ≡ unvisited maze
unvisited-set_new [] i v lt h k = absurd (omega arith)
unvisited-set_new (m ∷ maze) zero v lt h k = rw (h, k)
unvisited-set_new (m ∷ maze) (suc i) v lt h k = elim (Bool-cases m.visited) [
  | inl e ↦ rw e (unvisited-set_new maze i v (omega arith) h k)
  | inr e ↦ rw e (ap suc (unvisited-set_new maze i v (omega arith) h k))
]

-- What a search leaves alone everywhere: the size, and the place and connections of each room;
-- visited rooms stay visited, and except for the room `e` they stay as they were.
pub record Changes (e : ℕ) (m m' : Maze) : Type 0 where
  pub size : length m' ≡ length m
  pub row : (i : ℕ) → (room m' i).r ≡ (room m i).r
  pub col : (i : ℕ) → (room m' i).c ≡ (room m i).c
  pub walls : (i : ℕ) → (room m' i).connections ≡ (room m i).connections
  pub stays : (i : ℕ) → (room m i).visited ≡ true → (room m' i).visited ≡ true
  pub kept : (i : ℕ) → i ≢ e → (room m i).visited ≡ true → room m' i ≡ room m i
  pub fewer : unvisited m' ≤ unvisited m

pub Changes-refl : (e : ℕ) (m : Maze) → Changes e m m
Changes-refl e m = record {
  size = refl;
  row = λ i. refl;
  col = λ i. refl;
  walls = λ i. refl;
  stays = λ i h. h;
  kept = λ i n h. refl;
  fewer = omega arith;
}

pub Changes-trans : {e : ℕ} {a b c : Maze} → Changes e a b → Changes e b c → Changes e a c
Changes-trans p q = record {
  size = q.size ∙ p.size;
  row = λ i. q.row i ∙ p.row i;
  col = λ i. q.col i ∙ p.col i;
  walls = λ i. q.walls i ∙ p.walls i;
  stays = λ i h. q.stays i (p.stays i h);
  kept = λ i n h. q.kept i n (p.stays i h) ∙ p.kept i n h;
  fewer = omega (arith, p.fewer, q.fewer);
}

pub room-set :
    (m : Maze) (i j : ℕ) (v : Room)
    → i < length m
    → ((i ≡ j) × (room (set m i v) j ≡ v)) ⊎ ((i ≢ j) × (room (set m i v) j ≡ room m j))
room-set m i j v h = elim (Bool-cases (i == j)) [
  | inl e ↦
      let eq : i ≡ j = (==_iff i j).0 e in inl (eq, rw (← eq) (get_or-set_self m i v no_room h))
  | inr e ↦ let ne : i ≢ j = ground arith in inr (ne, get_or-set_ne m i j v no_room ne)
]

-- A write to room `e` that keeps its place and connections, and its visit if it was visited.
module _ (m : Maze) (e : ℕ) (v : Room) (lt : e < length m) (vr : v.r ≡ (room m e).r)
    (vc : v.c ≡ (room m e).c) (vk : v.connections ≡ (room m e).connections)
    (vv : (room m e).visited ≡ true → v.visited ≡ true)
    (fewer : unvisited (set m e v) ≤ unvisited m) where
  field_at :
      {A : Type 0} (f : Room → A)
      → f v ≡ f (room m e)
      → (i : ℕ) → f (room (set m e v) i) ≡ f (room m i)
  field_at f h i = elim (room-set m e i v lt) [
    | inl (eq, at) ↦ ap f at ∙ h ∙ ap (λ k. f (room m k)) eq
    | inr (ne, at) ↦ ap f at
  ]

  pub Changes-set : Changes e m (set m e v)
  Changes-set = record {
    size = length-set m e v;
    row = field_at (λ x. x.r) vr;
    col = field_at (λ x. x.c) vc;
    walls = field_at (λ x. x.connections) vk;
    stays = λ i h. elim (room-set m e i v lt) [
      | inl (eq, at) ↦ rw at (vv (rw eq h))
      | inr (ne, at) ↦ rw at h
    ];
    kept = λ i n h. get_or-set_ne m e i v no_room (λ q. n (sym q));
    fewer = fewer;
  }

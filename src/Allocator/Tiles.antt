-- ===== src/Allocator/Tiles.antt =====
-- The blocks of the heap in order, as the boundary tags lay them out.
use c_course_projects.Common.{
  ℕ, ◌+◌, ◌-◌, ◌%◌, ◌≤◌, ◌≡◌, ◌≢◌, ◌⊎◌, inl, inr, List, [], ◌∷◌, ◌++◌, refl, ◌∙◌, arith, All,
  All-imp, if◌then◌else◌, ◌==◌,
}
use c_course_projects.Allocator.Access.{next_at, prev_at}

-- A block by its size and by the flag in its tags: 1 if it is allocated.
pub record Tile : Type 0 where
  pub size : ℕ
  pub flag : ℕ

abbrev pub tile : ℕ → ℕ → Tile
tile size flag = record { size = size; flag = flag }

pub record IsTile (m : ℕ → ℕ) (a : ℕ) (t : Tile) : Type 0 where
  pub big : 32 ≤ t.size
  pub aligned : t.size % 8 ≡ 0
  pub bit : t.flag ≤ 1
  pub front : m a ≡ t.size + t.flag
  pub back : m (a + t.size - 8) ≡ t.size + t.flag

-- The blocks fill the memory from `a` to `e`.
abbrev pub Tiles : (ℕ → ℕ) → ℕ → List Tile → ℕ → Type 0
Tiles m a [] e = a ≡ e
Tiles m a (t ∷ ts) e = IsTile m a t × Tiles m (a + t.size) ts e

-- Where the blocks end.
abbrev pub after : ℕ → List Tile → ℕ
after a [] = a
after a (t ∷ ts) = after (a + t.size) ts

-- The free blocks among them.
abbrev pub free_at : ℕ → List Tile → List ℕ
free_at a [] = []
free_at a (t ∷ ts) = if t.flag == 0 then a ∷ free_at (a + t.size) ts else free_at (a + t.size) ts

-- A block at `x` lies before the block at `a`, is that block, or lies behind it.
abbrev pub Clear : ℕ → ℕ → ℕ → Type 0
Clear a size x = (x ≡ a) ⊎ (x + 32 ≤ a) ⊎ (a + size ≤ x)

abbrev pub ClearOf : ℕ → List Tile → ℕ → Type 0
ClearOf a [] x = Unit
ClearOf a (t ∷ ts) x = Clear a t.size x × ClearOf (a + t.size) ts x

pub Tiles-split :
    (m : ℕ → ℕ) (a : ℕ) (xs ys : List Tile) (e : ℕ)
    → Tiles m a (xs ++ ys) e
    → Tiles m a xs (after a xs) × Tiles m (after a xs) ys e
Tiles-split m a [] ys e t = (refl, t)
Tiles-split m a (x ∷ xs) ys e t =
    let (s, u) = Tiles-split m (a + x.size) xs ys e t.1 in ((t.0, s), u)

pub Tiles-join :
    (m : ℕ → ℕ) (a : ℕ) (xs ys : List Tile) (e : ℕ)
    → Tiles m a xs (after a xs)
    → Tiles m (after a xs) ys e
    → Tiles m a (xs ++ ys) e
Tiles-join m a [] ys e s t = t
Tiles-join m a (x ∷ xs) ys e s t = (s.0, Tiles-join m (a + x.size) xs ys e s.1 t)

pub Tiles-le : (m : ℕ → ℕ) (a : ℕ) (ts : List Tile) (e : ℕ) → Tiles m a ts e → a ≤ e
Tiles-le m a [] e t = omega arith
Tiles-le m a (x ∷ ts) e t = omega (arith, Tiles-le m (a + x.size) ts e t.1)

-- Memory that is changed only outside of the blocks.
pub Tiles-frame :
    (m m' : ℕ → ℕ) (a : ℕ) (ts : List Tile) (e : ℕ)
    → Tiles m a ts e
    → ((c : ℕ) → a ≤ c → c + 8 ≤ e → m' c ≡ m c)
    → Tiles m' a ts e
Tiles-frame m m' a [] e t same = t
Tiles-frame m m' a (x ∷ ts) e t same =
    let le = Tiles-le m (a + x.size) ts e t.1 in
    let big = t.0.big in
    (
      record {
        big = t.0.big;
        aligned = t.0.aligned;
        bit = t.0.bit;
        front = same a (omega arith) (omega arith) ∙ t.0.front;
        back = same (a + x.size - 8) (omega arith) (omega arith) ∙ t.0.back;
      },
      Tiles-frame m m' (a + x.size) ts e t.1 (λ c p q. same c (omega arith) q),
    )

-- Memory that is changed only in links of blocks that are clear of the blocks.
pub Tiles-links :
    (m m' : ℕ → ℕ) (fl : List ℕ) (a : ℕ) (ts : List Tile) (e : ℕ)
    → Tiles m a ts e
    → All (ClearOf a ts) fl
    → ((c : ℕ) → All (λ b. (c ≢ next_at b) × (c ≢ prev_at b)) fl → m' c ≡ m c)
    → Tiles m' a ts e
Tiles-links m m' fl a [] e t cl same = t
Tiles-links m m' fl a (x ∷ ts) e t cl same =
    let big = t.0.big in
    let front_same = same a (All-imp (λ b p. no_front b p.0) fl cl) in
    let back_same = same (a + x.size - 8) (All-imp (λ b p. no_back b p.0) fl cl) in
    (
      record {
        big = t.0.big;
        aligned = t.0.aligned;
        bit = t.0.bit;
        front = front_same ∙ t.0.front;
        back = back_same ∙ t.0.back;
      },
      Tiles-links m m' fl (a + x.size) ts e t.1 (All-imp (λ b p. p.1) fl cl) same,
    )
  where
    no_front : (b : ℕ) → Clear a x.size b → (a ≢ next_at b) × (a ≢ prev_at b)
    no_front b p = (λ q. absurd (ground (arith, t.0.big)), λ q. absurd (ground (arith, t.0.big)))

    no_back :
        (b : ℕ) → Clear a x.size b → (a + x.size - 8 ≢ next_at b) × (a + x.size - 8 ≢ prev_at b)
    no_back b p = (λ q. absurd (ground (arith, t.0.big)), λ q. absurd (ground (arith, t.0.big)))

-- A block below is clear of the blocks.
pub ClearOf-below : (a : ℕ) (ts : List Tile) (x : ℕ) → x + 32 ≤ a → ClearOf a ts x
ClearOf-below a [] x p = tt
ClearOf-below a (t ∷ ts) x p = (inr (inl p), ClearOf-below (a + t.size) ts x (omega arith))

pub ClearOf-above :
    (m : ℕ → ℕ) (a : ℕ) (ts : List Tile) (e x : ℕ) → Tiles m a ts e → e ≤ x → ClearOf a ts x
ClearOf-above m a [] e x t p = tt
ClearOf-above m a (y ∷ ts) e x t p =
    let le = Tiles-le m (a + y.size) ts e t.1 in
    (inr (inr (omega arith)), ClearOf-above m (a + y.size) ts e x t.1 p)

pub ClearOf-append :
    (a : ℕ) (xs ys : List Tile) (x : ℕ)
    → ClearOf a xs x
    → ClearOf (after a xs) ys x
    → ClearOf a (xs ++ ys) x
ClearOf-append a [] ys x p q = q
ClearOf-append a (t ∷ xs) ys x p q = (p.0, ClearOf-append (a + t.size) xs ys x p.1 q)

pub ClearOf-split :
    (a : ℕ) (xs ys : List Tile) (x : ℕ)
    → ClearOf a (xs ++ ys) x
    → ClearOf a xs x × ClearOf (after a xs) ys x
ClearOf-split a [] ys x p = (tt, p)
ClearOf-split a (t ∷ xs) ys x p =
    let (q, r) = ClearOf-split (a + t.size) xs ys x p.1 in ((p.0, q), r)

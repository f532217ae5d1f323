-- ===== src/Allocator/Unlink.antt =====
-- `unlink_free` links the neighbors of a block to each other.
use c_course_projects.Common.{
  ℕ, ◌≡◌, ◌==◌, true, inr, List, [], ◌∷◌, ◌++◌, subst, some, arith, All, All-imp, All-append,
  All-append_left, All-append_right,
}
use c_course_projects.Allocator.{Heap, update}
use c_course_projects.Allocator.Access.{
  IsFree, write, next_at, prev_at, next_free-ok, prev_free-ok, set_next_free-ok, set_prev_free-ok,
}
use c_course_projects.Allocator.Block.{unlink_free}
use c_course_projects.Allocator.Ring.{
  last, Apart, Apart-symm, Scattered, Inner, All-last, Near, Near-last,
}

-- The memory after the two writes, which link `p` and `n`.
abbrev pub relinked : ℕ → ℕ → (ℕ → ℕ) → ℕ → ℕ
relinked p n m = update (update m (next_at p) n) (prev_at n) p

pub unlink_free-relinked :
    (h : Heap) (fb p n : ℕ)
    → IsFree h fb
    → IsFree h p
    → IsFree h n
    → h.memory (prev_at fb) ≡ p
    → h.memory (next_at fb) ≡ n
    → Apart fb p
    → Apart fb n
    → Near p n
    → unlink_free fb h ≡ some (tt, record h { memory = relinked p n h.memory })
unfolding unlink_free
unlink_free-relinked h fb p n f fp fn ep en p_fb an pn =
    let h1 = write (next_at p) n h in
    let f1 : IsFree h1 fb = ground arith in
    let p1 : IsFree h1 p = ground arith in
    let n1 : IsFree h1 n = ground arith in
    let next : h1.memory (next_at fb) ≡ n = ground arith in
    let prev : h1.memory (prev_at fb) ≡ p = ground arith in
    rw
      (
        prev_free-ok f,
        ep,
        next_free-ok f,
        en,
        set_next_free-ok fp fn,
        next_free-ok f1,
        next,
        prev_free-ok f1,
        prev,
      )
      (set_prev_free-ok n1 p1)

module _ (m : ℕ → ℕ) (p n : ℕ) where
  -- A segment that ends at `p`.
  pub Inner-relinked :
      (a : ℕ) (ys : List ℕ)
      → Near a n
      → All (Apart n) ys
      → Scattered (a ∷ ys)
      → last a ys ≡ p
      → Inner m (relinked p n m) a ys
  Inner-relinked a [] near ns sc e = tt
  Inner-relinked a (y ∷ ys) near ns sc e =
      let far : Apart a p = subst (Apart a) e (All-last (Apart a) y ys sc.0.0 sc.0.1) in
      let close : Near y p = subst (Near y) e (Near-last y ys sc.1.0) in
      (ground arith, ground arith, Inner-relinked y ys (inr (Apart-symm n y ns.0)) ns.1 sc.1 e)

  -- A segment that `p` is not on.
  pub Inner-away :
      (a : ℕ) (ys : List ℕ)
      → Near a n
      → All (Apart n) ys
      → All (Apart p) (a ∷ ys)
      → Inner m (relinked p n m) a ys
  Inner-away a [] near ns ps = tt
  Inner-away a (y ∷ ys) near ns ps =
      let p_a = ps.0 in
      let p_y = ps.1.0 in
      (ground arith, ground arith, Inner-away y ys (inr (Apart-symm n y ns.0)) ns.1 ps.1)

pub Scattered-split :
    (us bs : List ℕ)
    → Scattered (us ++ bs)
    → Scattered us × Scattered bs × All (λ a. All (Apart a) bs) us
Scattered-split [] bs s = (tt, s, tt)
Scattered-split (a ∷ us) bs s =
    let (sa, sb, off) = Scattered-split us bs s.1 in
    ((All-append_left _ us bs s.0, sa), sb, (All-append_right _ us bs s.0, off))

pub Apart-of_Scattered :
    (us : List ℕ) (b : ℕ) (bs : List ℕ) → Scattered (us ++ b ∷ bs) → All (Apart b) (us ++ bs)
Apart-of_Scattered us b bs s =
    let (su, sb, off) = Scattered-split us (b ∷ bs) s in
    All-append _ us bs (All-imp (λ a p. Apart-symm a b p.0) us off) sb.0

pub Scattered-remove :
    (us : List ℕ) (b : ℕ) (bs : List ℕ) → Scattered (us ++ b ∷ bs) → Scattered (us ++ bs)
Scattered-remove [] b bs s = s.1
Scattered-remove (a ∷ us) b bs s = (
  All-append _ us bs (All-append_left _ us (b ∷ bs) s.0) (All-append_right _ us (b ∷ bs) s.0).1,
  Scattered-remove us b bs s.1,
)

pub All-remove {κ} :
    (P : ℕ → Type κ) (us : List ℕ) (b : ℕ) (bs : List ℕ) → All P (us ++ b ∷ bs) → All P (us ++ bs)
All-remove P us b bs s =
    All-append P us bs (All-append_left P us (b ∷ bs) s) (All-append_right P us (b ∷ bs) s).1

pub ==_refl : (a : ℕ) → (a == a) ≡ true
==_refl a = ground arith

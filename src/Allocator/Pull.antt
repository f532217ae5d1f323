-- ===== src/Allocator/Pull.antt =====
-- `pull_free_block` takes a block out of the circular list, wherever it stands.
use c_course_projects.Common.{
  ℕ, ◌≡◌, ◌≢◌, ◌==◌, false, inl, inr, List, [], ◌∷◌, ◌++◌, refl, sym, ap, subst, some, arith, All,
  All-imp, append-nil, All-append_left, All-append_right,
}
use c_course_projects.Allocator.{Heap}
use c_course_projects.Allocator.Access.{IsFree, next_at, prev_at, assert_free-ok, next_free-ok}
use c_course_projects.Allocator.Block.{pull_free_block, pull_first, unlink_free}
use c_course_projects.Allocator.Ring.{
  Seg, last, Apart, Apart-symm, Seg-change, Seg-last, Seg-join, Seg-split, All-last, Near,
  Near-last, IsFreeList, SameButLinks, with_memory, Relinks, IsFree-kept,
}
use c_course_projects.Allocator.Unlink.{
  relinked, unlink_free-relinked, Scattered-split, Scattered-remove, All-remove, ==_refl,
  Inner-relinked, Inner-away,
}

pull_only-Relinks :
    (h : Heap) (fb : ℕ) → IsFreeList h (fb ∷ []) → Relinks h [] (pull_free_block fb h)
unfolding pull_free_block pull_first
pull_only-Relinks h fb is =
    let f = is.free.0 in
    (
      h.memory,
      simp (assert_free-ok f, is.first, next_free-ok f, is.circular.0, ==_refl fb),
      record { first = refl; circular = tt; free = tt; scattered = tt },
      λ a p. refl,
    )

moved_first : (h : Heap) (b x : ℕ) → IsFree h b → IsFree (record h { flist_first = x }) b
moved_first h b x f = ground arith

-- The block is the first of several.
pull_first-Relinks :
    (h : Heap) (fb x : ℕ) (xs : List ℕ)
    → IsFreeList h (fb ∷ x ∷ xs)
    → Relinks h (x ∷ xs) (pull_free_block fb h)
unfolding pull_free_block pull_first
pull_first-Relinks h fb x xs is =
    let p = last x xs in
    let f = is.free.0 in
    let fx = is.free.1.0 in
    let off = is.scattered.0 in
    let sc = is.scattered.1 in
    let fp : IsFree h p = All-last (IsFree h) x xs fx is.free.1.1 in
    let off_p : Apart fb p = All-last (Apart fb) x xs off.0 off.1 in
    let near : Near x p = Near-last x xs sc.0 in
    let before = Seg-last h.memory x xs fb is.circular.1 in
    let m' = relinked p x h.memory in
    let other : (x == fb) ≡ false = ground arith in
    let hx = record h { flist_first = x } in
    let near' : Near p x = ground arith in
    let unlinked : unlink_free fb hx ≡ some (tt, record hx { memory = m' }) =
      unlink_free-relinked hx fb p x (moved_first h fb x f) (moved_first h p x fp)
        (moved_first h x x fx) before.1 is.circular.0.0 off_p off.0 near' in
    let same : SameButLinks (x ∷ xs) h.memory m' = λ a q.
      let r = All-last (λ b. (a ≢ next_at b) × (a ≢ prev_at b)) x xs q.0 q.1 in ground arith in
    (
      m',
      simp (
        assert_free-ok f,
        is.first,
        ==_refl fb,
        next_free-ok f,
        is.circular.0.0,
        other,
        unlinked,
      ),
      record {
        first = refl;
        circular =
            Seg-change h.memory m' x xs fb x is.circular.1
              (Inner-relinked h.memory p x x xs (inl refl) sc.0 sc refl)
              (ground arith, ground arith);
        free = IsFree-kept h (record hx { memory = m' }) (x ∷ xs) sc is.free.1 same refl refl;
        scattered = sc;
      },
      same,
    )

-- The block is not the first one: it is unlinked from `p`, which stands before it, and `n`.
pull_later :
    (h : Heap) (x fb p n : ℕ)
    → h.flist_first ≡ x
    → Apart x fb
    → IsFree h fb
    → IsFree h p
    → IsFree h n
    → h.memory (prev_at fb) ≡ p
    → h.memory (next_at fb) ≡ n
    → Apart p fb
    → Apart fb n
    → Near p n
    → pull_free_block fb h ≡ some (tt, with_memory h (relinked p n h.memory) x)
unfolding pull_free_block
pull_later h x fb p n first off f fp fn ep en p_fb an pn =
    let other : (h.flist_first == fb) ≡ false = ground arith in
    let whole : record h { memory = relinked p n h.memory }
        ≡ with_memory h (relinked p n h.memory) x =
      ap (λ t. with_memory h (relinked p n h.memory) t) first in
    rw
      (
        assert_free-ok f,
        other,
        unlink_free-relinked h fb p n f fp fn ep en (Apart-symm p fb p_fb) an pn,
      )
      (ap (λ t. some (tt, t)) whole)

-- No link of the given blocks is at the address.
abbrev NoLink : ℕ → List ℕ → Type 0
NoLink a bs = All (λ b. (a ≢ next_at b) × (a ≢ prev_at b)) bs

module _ (h : Heap) (x : ℕ) (us : List ℕ) (fb : ℕ) (zs : List ℕ) where
  -- Once the links around the block are known.
  pull_around :
      (n : ℕ)
      → IsFreeList h (x ∷ us ++ fb ∷ zs)
      → h.memory (next_at fb) ≡ n
      → IsFree h n
      → Apart fb n
      → Near (last x us) n
      → ((a : ℕ) → NoLink a (x ∷ us) → NoLink a zs → (a ≢ next_at n) × (a ≢ prev_at n))
      → Seg (relinked (last x us) n h.memory) x (us ++ zs) x
      → Relinks h (x ∷ us ++ zs) (pull_free_block fb h)
  pull_around n is en fn an pn links circle =
      let m' = relinked (last x us) n h.memory in
      let (scu, scf, off) = Scattered-split (x ∷ us) (fb ∷ zs) is.scattered in
      let (s, t) = Seg-split h.memory x us fb zs x is.circular in
      let frees = All-append_left (IsFree h) (x ∷ us) (fb ∷ zs) is.free in
      let fp : IsFree h (last x us) = All-last (IsFree h) x us frees.0 frees.1 in
      let f = (All-append_right (IsFree h) (x ∷ us) (fb ∷ zs) is.free).0 in
      let off_p = All-last (λ a. All (Apart a) (fb ∷ zs)) x us off.0 off.1 in
      let sc = Scattered-remove (x ∷ us) fb zs is.scattered in
      let same : SameButLinks (x ∷ us ++ zs) h.memory m' = λ a q.
        let front = All-append_left _ (x ∷ us) zs q in
        let r = All-last (λ b. (a ≢ next_at b) × (a ≢ prev_at b)) x us front.0 front.1 in
        let l = links a front (All-append_right _ (x ∷ us) zs q) in ground arith in
      (
        m',
        pull_later h x fb (last x us) n is.first off.0.0 f fp fn (Seg-last h.memory x us fb s).1 en
            off_p.0 an pn,
        record {
          first = refl;
          circular = circle;
          free =
              IsFree-kept h (with_memory h m' x) (x ∷ us ++ zs) sc
                (All-remove (IsFree h) (x ∷ us) fb zs is.free) same refl refl;
          scattered = sc;
        },
        same,
      )

module _ (h : Heap) (x : ℕ) (us : List ℕ) (fb : ℕ) where
  pull_last-Relinks :
      IsFreeList h (x ∷ us ++ fb ∷ []) → Relinks h (x ∷ us ++ []) (pull_free_block fb h)
  pull_last-Relinks is =
      let p = last x us in
      let m' = relinked p x h.memory in
      let (scu, scf, off) = Scattered-split (x ∷ us) (fb ∷ []) is.scattered in
      let (s, t) = Seg-split h.memory x us fb [] x is.circular in
      let near = Near-last x us scu.0 in
      let near' : Near p x = ground arith in
      let circle : Seg m' x us x =
        Seg-change h.memory m' x us fb x s
          (Inner-relinked h.memory p x x us (inl refl) scu.0 scu refl)
          (ground arith, ground arith) in
      pull_around h x us fb [] x is t.0 is.free.0 (Apart-symm x fb off.0.0) near' (λ a q r. q.0)
        (subst (λ l. Seg m' x l x) (sym (append-nil us)) circle)

  pull_inner-Relinks :
      (z : ℕ) (zs : List ℕ)
      → IsFreeList h (x ∷ us ++ fb ∷ z ∷ zs)
      → Relinks h (x ∷ us ++ z ∷ zs) (pull_free_block fb h)
  pull_inner-Relinks z zs is =
      let p = last x us in
      let m' = relinked p z h.memory in
      let (scu, scf, off) = Scattered-split (x ∷ us) (fb ∷ z ∷ zs) is.scattered in
      let (s, t) = Seg-split h.memory x us fb (z ∷ zs) x is.circular in
      let off_p = All-last (λ a. All (Apart a) (fb ∷ z ∷ zs)) x us off.0 off.1 in
      let off_z = All-imp (λ a q. Apart-symm a z q.1.0) (x ∷ us) off in
      let fz = (All-append_right (IsFree h) (x ∷ us) (fb ∷ z ∷ zs) is.free).1.0 in
      let front : Seg m' x us z =
        Seg-change h.memory m' x us fb z s
          (Inner-relinked h.memory p z x us (inr off.0.1.0) off_z.1 scu refl)
          (ground arith, ground arith) in
      let q = last z zs in
      let p_q = All-last (Apart p) z zs off_p.1.0 off_p.1.1 in
      let z_q = Near-last z zs scf.1.0 in
      let end = Seg-last h.memory z zs x t.1 in
      let x_z = off.0.1.0 in
      let near = Near-last x us scu.0 in
      let back : Seg m' z zs x =
        Seg-change h.memory m' z zs x x t.1
          (Inner-away h.memory p z z zs (inl refl) scf.1.0 off_p.1) (ground arith, ground arith) in
      pull_around h x us fb (z ∷ zs) z is t.0.0 fz scf.0.0 (inr off_p.1.0) (λ a q r. r.0)
        (Seg-join m' x us z zs x front back)

-- Pulling a block out of a free list, wherever it stands, succeeds. The others keep their order, stay
-- linked in a circle both ways, and no word changes but the links of the blocks that are left.
pub pull_free_block-Relinks :
    (h : Heap) (us : List ℕ) (fb : ℕ) (zs : List ℕ)
    → IsFreeList h (us ++ fb ∷ zs)
    → Relinks h (us ++ zs) (pull_free_block fb h)
pull_free_block-Relinks h [] fb [] is = pull_only-Relinks h fb is
pull_free_block-Relinks h [] fb (z ∷ zs) is = pull_first-Relinks h fb z zs is
pull_free_block-Relinks h (x ∷ us) fb [] is = pull_last-Relinks h x us fb is
pull_free_block-Relinks h (x ∷ us) fb (z ∷ zs) is = pull_inner-Relinks h x us fb z zs is

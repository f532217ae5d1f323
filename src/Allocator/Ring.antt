-- ===== src/Allocator/Ring.antt =====
-- The circular list of the free blocks: from each block the links lead to the next one and back.
use c_course_projects.Common.{
  ℕ, ◌+◌, ◌≤◌, ◌≡◌, ◌⊎◌, inl, inr, List, [], ◌∷◌, ◌++◌, refl, ◌∙◌, All, ◌≢◌, arith, Option, some,
  All-imp, All-both,
}
use c_course_projects.Allocator.{Heap, null}
use c_course_projects.Allocator.Access.{IsFree, next_at, prev_at}

-- `a` and `b` are linked to each other.
abbrev pub Link : (ℕ → ℕ) → ℕ → ℕ → Type 0
Link m a b = (m (next_at a) ≡ b) × (m (prev_at b) ≡ a)

-- The links lead from `a` through the blocks to `c`.
abbrev pub Seg : (ℕ → ℕ) → ℕ → List ℕ → ℕ → Type 0
Seg m a [] c = Link m a c
Seg m a (y ∷ ys) c = Link m a y × Seg m y ys c

-- The block before the end of a segment.
abbrev pub last : ℕ → List ℕ → ℕ
last a [] = a
last a (y ∷ ys) = last y ys

-- Tags and links of the two blocks have no word in common.
abbrev pub Apart : ℕ → ℕ → Type 0
Apart a b = (a + 24 ≤ b) ⊎ (b + 24 ≤ a)

abbrev pub Scattered : List ℕ → Type 0
Scattered [] = Unit
Scattered (x ∷ xs) = All (Apart x) xs × Scattered xs

-- A change of the memory leaves the cells between `a` and the last block alone.
abbrev pub Inner : (ℕ → ℕ) → (ℕ → ℕ) → ℕ → List ℕ → Type 0
Inner m m' a [] = Unit
Inner m m' a (y ∷ ys) =
    (m' (next_at a) ≡ m (next_at a)) × (m' (prev_at y) ≡ m (prev_at y)) × Inner m m' y ys

-- Then the segment may end elsewhere.
pub Seg-change :
    (m m' : ℕ → ℕ) (a : ℕ) (ys : List ℕ) (c c' : ℕ)
    → Seg m a ys c
    → Inner m m' a ys
    → Link m' (last a ys) c'
    → Seg m' a ys c'
Seg-change m m' a [] c c' s i l = l
Seg-change m m' a (y ∷ ys) c c' s i l =
    ((i.0 ∙ s.0.0, i.1 ∙ s.0.1), Seg-change m m' y ys c c' s.1 i.2 l)

pub Seg-last : (m : ℕ → ℕ) (a : ℕ) (ys : List ℕ) (c : ℕ) → Seg m a ys c → Link m (last a ys) c
Seg-last m a [] c s = s
Seg-last m a (y ∷ ys) c s = Seg-last m y ys c s.1

pub Seg-join :
    (m : ℕ → ℕ) (a : ℕ) (ys : List ℕ) (b : ℕ) (zs : List ℕ) (c : ℕ)
    → Seg m a ys b
    → Seg m b zs c
    → Seg m a (ys ++ b ∷ zs) c
Seg-join m a [] b zs c s t = (s, t)
Seg-join m a (y ∷ ys) b zs c s t = (s.0, Seg-join m y ys b zs c s.1 t)

pub Seg-split :
    (m : ℕ → ℕ) (a : ℕ) (ys : List ℕ) (b : ℕ) (zs : List ℕ) (c : ℕ)
    → Seg m a (ys ++ b ∷ zs) c
    → Seg m a ys b × Seg m b zs c
Seg-split m a [] b zs c s = s
Seg-split m a (y ∷ ys) b zs c s = let (t, u) = Seg-split m y ys b zs c s.1 in ((s.0, t), u)

pub All-last {κ} : (P : ℕ → Type κ) (a : ℕ) (ys : List ℕ) → P a → All P ys → P (last a ys)
All-last P a [] p ps = p
All-last P a (y ∷ ys) p ps = All-last P y ys ps.0 ps.1

-- The last block is the first one or lies apart from it.
abbrev pub Near : ℕ → ℕ → Type 0
Near a b = (a ≡ b) ⊎ Apart a b

pub Near-last : (a : ℕ) (ys : List ℕ) → All (Apart a) ys → Near a (last a ys)
Near-last a [] ps = inl refl
Near-last a (y ∷ ys) ps = inr (All-last (Apart a) y ys ps.0 ps.1)

pub Apart-symm : (a b : ℕ) → Apart a b → Apart b a
Apart-symm a b (inl p) = inr p
Apart-symm a b (inr p) = inl p

abbrev pub Circular : (ℕ → ℕ) → List ℕ → Type 0
Circular m [] = Unit
Circular m (x ∷ xs) = Seg m x xs x

abbrev pub head_or_null : List ℕ → ℕ
head_or_null [] = null
head_or_null (x ∷ xs) = x

-- `flist_first` is the first of the blocks, which are free, apart from each other and linked in a
-- circle.
pub record IsFreeList (h : Heap) (bs : List ℕ) : Type 0 where
  pub first : h.flist_first ≡ head_or_null bs
  pub circular : Circular h.memory bs
  pub free : All (IsFree h) bs
  pub scattered : Scattered bs

-- Two memories agree but for the links of the blocks.
abbrev pub SameButLinks : List ℕ → (ℕ → ℕ) → (ℕ → ℕ) → Type 0
SameButLinks bs m m' = (a : ℕ) → All (λ b. (a ≢ next_at b) × (a ≢ prev_at b)) bs → m' a ≡ m a

Near-tag : (b c : ℕ) → Near b c → (b ≢ next_at c) × (b ≢ prev_at c)
Near-tag b c n = (λ e. absurd (ground arith), λ e. absurd (ground arith))

-- Blocks that are apart from each other: no tag of one is a link of another.
tags_apart :
    (bs : List ℕ) → Scattered bs → All (λ b. All (λ c. (b ≢ next_at c) × (b ≢ prev_at c)) bs) bs
tags_apart [] s = tt
tags_apart (x ∷ xs) s = (
  (Near-tag x x (inl refl), All-imp (λ c p. Near-tag x c (inr p)) xs s.0),
  All-both _ _ xs (All-imp (λ b p. Near-tag b x (inr (Apart-symm x b p))) xs s.0)
      (tags_apart xs s.1),
)

pub IsFree-kept :
    (h h' : Heap) (bs : List ℕ)
    → Scattered bs
    → All (IsFree h) bs
    → SameButLinks bs h.memory h'.memory
    → h'.mem_start_brk ≡ h.mem_start_brk
    → h'.mem_max_addr ≡ h.mem_max_addr
    → All (IsFree h') bs
IsFree-kept h h' bs sc free same lo hi =
    All-imp (λ b p. keep b p.0 (same b p.1)) bs (All-both _ _ bs free (tags_apart bs sc))
  where
    keep : (b : ℕ) → IsFree h b → h'.memory b ≡ h.memory b → IsFree h' b
    keep b f e = ground arith

-- The heap with another memory and another first block.
abbrev pub with_memory : Heap → (ℕ → ℕ) → ℕ → Heap
with_memory h m b = record h { memory = m; flist_first = b }

-- What a change of the free list promises: it succeeds, the list is the given one, and of the memory
-- only links of its blocks are written.
abbrev pub Relinks : Heap → List ℕ → Option (Unit {0} × Heap) → Type 0
Relinks h bs r =
    (m : ℕ → ℕ) × (r ≡ some (tt, with_memory h m (head_or_null bs)))
    × IsFreeList (with_memory h m (head_or_null bs)) bs
    × SameButLinks bs h.memory m

-- A change of the memory leaves the links of a block alone.
abbrev pub KeepsLinks : (ℕ → ℕ) → (ℕ → ℕ) → ℕ → Type 0
KeepsLinks m m' b = (m' (next_at b) ≡ m (next_at b)) × (m' (prev_at b) ≡ m (prev_at b))

Seg-frame :
    (m m' : ℕ → ℕ) (a : ℕ) (ys : List ℕ) (c : ℕ)
    → All (KeepsLinks m m') (a ∷ ys)
    → KeepsLinks m m' c
    → Seg m a ys c
    → Seg m' a ys c
Seg-frame m m' a [] c k kc s = (k.0.0 ∙ s.0, kc.1 ∙ s.1)
Seg-frame m m' a (y ∷ ys) c k kc s =
    ((k.0.0 ∙ s.0.0, k.1.0.1 ∙ s.0.1), Seg-frame m m' y ys c k.1 kc s.1)

pub Circular-frame :
    (m m' : ℕ → ℕ) (bs : List ℕ) → All (KeepsLinks m m') bs → Circular m bs → Circular m' bs
Circular-frame m m' [] k s = tt
Circular-frame m m' (x ∷ xs) k s = Seg-frame m m' x xs x k k.0 s

-- ===== src/Server/Chain.antt =====
-- The list of clients, which is linked both ways and ends with NULL.
use c_course_projects.Common.{
  ℕ, ◌≡◌, ◌≢◌, List, [], ◌∷◌, ◌++◌, refl, ◌∙◌, arith, All, All-imp, All-append, All-append_left,
  All-append_right,
}
use c_course_projects.Server.{Server, null, update}

abbrev pub head_or_null : List ℕ → ℕ
head_or_null [] = null
head_or_null (x ∷ xs) = x

-- The links of the clients lead from the one before, `p`, through them to NULL, and back.
abbrev pub Chain : (ℕ → ℕ) → (ℕ → ℕ) → ℕ → List ℕ → Type 0
Chain prev next p [] = Unit
Chain prev next p (x ∷ xs) = (prev x ≡ p) × (next x ≡ head_or_null xs) × Chain prev next x xs

abbrev pub Distinct : List ℕ → Type 0
Distinct [] = Unit
Distinct (x ∷ xs) = All (λ y. y ≢ x) xs × Distinct xs

pub record IsClientList (s : Server) (xs : List ℕ) : Type 0 where
  pub head : s.thread_list_head ≡ head_or_null xs
  pub chain : Chain s.prev s.next null xs
  pub not_null : All (λ x. x ≢ null) xs
  pub distinct : Distinct xs

-- Links of other clients do not matter.
pub Chain-frame :
    (prev next prev' next' : ℕ → ℕ) (p : ℕ) (xs : List ℕ)
    → All (λ x. (prev' x ≡ prev x) × (next' x ≡ next x)) xs
    → Chain prev next p xs
    → Chain prev' next' p xs
Chain-frame prev next prev' next' p [] same c = tt
Chain-frame prev next prev' next' p (x ∷ xs) same c =
    (same.0.0 ∙ c.0, same.0.1 ∙ c.1, Chain-frame prev next prev' next' x xs same.1 c.2)

-- The first client may get another one before it.
pub Chain-before :
    (prev next : ℕ → ℕ) (p q : ℕ) (xs : List ℕ)
    → Distinct xs
    → Chain prev next p xs
    → Chain (update prev (head_or_null xs) q) next q xs
Chain-before prev next p q [] d c = tt
Chain-before prev next p q (x ∷ xs) d c = (
  ground arith,
  c.1,
  Chain-frame prev next (update prev x q) next x xs (All-imp (λ y n. (ground arith, refl)) xs d.0)
      c.2,
)

pub Distinct-remove :
    (us : List ℕ) (a : ℕ) (vs : List ℕ) → Distinct (us ++ a ∷ vs) → Distinct (us ++ vs)
Distinct-remove [] a vs d = d.1
Distinct-remove (u ∷ us) a vs d = (
  All-append _ us vs (All-append_left _ us (a ∷ vs) d.0) (All-append_right _ us (a ∷ vs) d.0).1,
  Distinct-remove us a vs d.1,
)

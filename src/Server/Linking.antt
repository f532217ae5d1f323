-- ===== src/Server/Linking.antt =====
-- What `run_client` and `thread_cleanup` do to the list of clients.
use c_course_projects.Common.{
  ℕ, ◌≡◌, ◌≢◌, ◌==◌, true, false, List, [], ◌∷◌, ◌++◌, refl, sym, subst, arith, All, All-imp,
  All-both, All-append, All-append_left, All-append_right,
}
use c_course_projects.Server.{Server, null, update, link_client, thread_cleanup}
use c_course_projects.Server.Chain.{
  head_or_null, Chain, Distinct, IsClientList, Chain-frame, Chain-before, Distinct-remove,
}

-- Linking a client that is not in the list and has no previous one, as `client_constructor` leaves it,
-- puts it at the front of the list, and changes no link of a client outside of the list.
pub link_client-Links :
    (s : Server) (a : ℕ) (xs : List ℕ)
    → IsClientList s xs
    → a ≢ null
    → All (λ x. x ≢ a) xs
    → s.prev a ≡ null
    → IsClientList (link_client a s) (a ∷ xs)
      × ((x : ℕ)
          → All (λ y. y ≢ x) (a ∷ xs)
          → ((link_client a s).prev x ≡ s.prev x) × ((link_client a s).next x ≡ s.next x))
unfolding link_client
link_client-Links s a [] l n off e =
    let t : (s.thread_list_head == null) ≡ true = ground (arith, l.head) in
    rw t (
      record {
        head = refl;
        chain = (e, ground arith, tt);
        not_null = (n, tt);
        distinct = (tt, tt);
      },
      λ x p. (refl, ground arith),
    )
link_client-Links s a (x ∷ xs) l n off e =
    let h = l.head in
    let t : (s.thread_list_head == null) ≡ false = ground (arith, l.not_null.0) in
    rw t (
      record {
        head = refl;
        chain = (
          ground arith,
          ground arith,
          (
            ground arith,
            ground arith,
            Chain-frame s.prev s.next _ _ x xs
                (All-imp (λ y p. (ground arith, ground arith)) xs
                  (All-both _ _ xs l.distinct.0 off.1))
                l.chain.2,
          ),
        );
        not_null = (n, l.not_null);
        distinct = (off, l.distinct);
      },
      λ y p. (ground arith, ground arith),
    )

head-All {κ} : (P : ℕ → Type κ) (xs : List ℕ) → P null → All P xs → P (head_or_null xs)
head-All P [] n all = n
head-All P (x ∷ xs) n all = all.0

module _ (prev next : ℕ → ℕ) where
  -- The client before `a` is the one before all, or one of those before `a`.
  prev-All {κ} :
      (P : ℕ → Type κ) (p : ℕ) (us : List ℕ) (a : ℕ) (vs : List ℕ)
      → Chain prev next p (us ++ a ∷ vs)
      → P p
      → All P us
      → P (prev a)
  prev-All P p [] a vs c q all = subst P (sym c.0) q
  prev-All P p (u ∷ us) a vs c q all = prev-All P u us a vs c.2 all.0 all.1

  next-head :
      (p : ℕ) (us : List ℕ) (a : ℕ) (vs : List ℕ)
      → Chain prev next p (us ++ a ∷ vs)
      → next a ≡ head_or_null vs
  next-head p [] a vs c = c.1
  next-head p (u ∷ us) a vs c = next-head u us a vs c.2

  module _ (prev' next' : ℕ → ℕ) (a : ℕ)
      (prevs : (x : ℕ) → x ≢ null → prev' x ≡ update prev (next a) (prev a) x)
      (nexts : (x : ℕ) → x ≢ null → next' x ≡ update next (prev a) (next a) x) where
    Chain-remove_first :
        (p : ℕ) (vs : List ℕ)
        → Chain prev next p (a ∷ vs)
        → Distinct vs
        → All (λ x. (x ≢ p) × (x ≢ null)) vs
        → Chain prev' next' p vs
    Chain-remove_first p vs c d off =
        Chain-frame (update prev (head_or_null vs) p) next prev' next' p vs
          (All-imp (λ x o. (first x o, second x o)) vs off) (Chain-before prev next a p vs d c.2)
      where
        first : (x : ℕ) → (x ≢ p) × (x ≢ null) → prev' x ≡ update prev (head_or_null vs) p x
        first x o = ground (arith, prevs x, c.0, c.1)

        second : (x : ℕ) → (x ≢ p) × (x ≢ null) → next' x ≡ next x
        second x o = ground (arith, nexts x, c.0, c.1)

    next-remove :
        (u : ℕ) (us vs : List ℕ)
        → u ≢ null
        → next u ≡ head_or_null (us ++ a ∷ vs)
        → Chain prev next u (us ++ a ∷ vs)
        → All (λ x. x ≢ u) (us ++ a ∷ vs)
        → next' u ≡ head_or_null (us ++ vs)
    next-remove u [] vs n e c d = ground (arith, nexts u, c.0, c.1)
    next-remove u (w ∷ us) vs n e c d =
        let away : prev a ≢ u =
          prev-All (λ y. y ≢ u) w us a vs c.2 d.0 (All-append_left _ us (a ∷ vs) d.1) in
        ground (arith, nexts u)

    Chain-remove :
        (p : ℕ) (us vs : List ℕ)
        → Chain prev next p (us ++ a ∷ vs)
        → Distinct (us ++ a ∷ vs)
        → All (λ x. (x ≢ p) × (x ≢ null)) (us ++ a ∷ vs)
        → Chain prev' next' p (us ++ vs)
    Chain-remove p [] vs c d off = Chain-remove_first p vs c d.1 off.1
    Chain-remove p (u ∷ us) vs c d off =
        let away : head_or_null vs ≢ u =
          head-All (λ y. y ≢ u) vs (λ e. off.0.1 (sym e)) (All-append_right _ us (a ∷ vs) d.0).1 in
        let behind = next-head u us a vs c.2 in
        (
          ground (arith, prevs u, c.0),
          next-remove u us vs off.0.1 c.1 c.2 d.0,
          Chain-remove u us vs c.2 d.1 (
              All-imp (λ x o. (o.0, o.1.1)) (us ++ a ∷ vs) (All-both _ _ (us ++ a ∷ vs) d.0 off.1)),
        )

-- The client `a` is out of the list, and no link of a client outside of the list has changed.
abbrev pub Unlinks : Server → List ℕ → Server → Type 0
Unlinks s xs s' =
    IsClientList s' xs
    × ((x : ℕ) → x ≢ null → All (λ y. y ≢ x) xs → (s'.prev x ≡ s.prev x) × (s'.next x ≡ s.next x))

module _ (s s' : Server) (us : List ℕ) (a : ℕ) (vs : List ℕ) (l : IsClientList s (us ++ a ∷ vs))
    (prevs : (x : ℕ) → x ≢ null → s'.prev x ≡ update s.prev (s.next a) (s.prev a) x)
    (nexts : (x : ℕ) → x ≢ null → s'.next x ≡ update s.next (s.prev a) (s.next a) x) where
  unlink-Unlinks : s'.thread_list_head ≡ head_or_null (us ++ vs) → Unlinks s (us ++ vs) s'
  unlink-Unlinks first = (
    record {
      head = first;
      chain =
          Chain-remove s.prev s.next s'.prev s'.next a prevs nexts null us vs l.chain l.distinct
            (All-both _ _ (us ++ a ∷ vs) l.not_null l.not_null);
      not_null =
          All-append _ us vs (All-append_left _ us (a ∷ vs) l.not_null)
            (All-append_right _ us (a ∷ vs) l.not_null).1;
      distinct = Distinct-remove us a vs l.distinct;
    },
    same,
  )
    where
      same :
          (x : ℕ)
          → x ≢ null
          → All (λ y. y ≢ x) (us ++ vs)
          → (s'.prev x ≡ s.prev x) × (s'.next x ≡ s.next x)
      same x n off =
          let before : s.prev a ≢ x =
            prev-All s.prev s.next (λ y. y ≢ x) null us a vs l.chain (λ e. n (sym e))
              (All-append_left _ us vs off) in
          let after : head_or_null vs ≢ x =
            head-All (λ y. y ≢ x) vs (λ e. n (sym e)) (All-append_right _ us vs off) in
          let behind = next-head s.prev s.next null us a vs l.chain in
          (ground (arith, prevs x), ground (arith, nexts x))

-- The writes of `thread_cleanup`, whichever neighbors the client has.
thread_cleanup-links :
    (s : Server) (a x : ℕ)
    → x ≢ null
    → ((thread_cleanup a s).prev x ≡ update s.prev (s.next a) (s.prev a) x)
      × ((thread_cleanup a s).next x ≡ update s.next (s.prev a) (s.next a) x)
unfolding thread_cleanup
thread_cleanup-links s a x n = (ground arith, ground arith)

thread_cleanup-head :
    (s : Server) (us : List ℕ) (a : ℕ) (vs : List ℕ)
    → IsClientList s (us ++ a ∷ vs)
    → (thread_cleanup a s).thread_list_head ≡ head_or_null (us ++ vs)
unfolding thread_cleanup
thread_cleanup-head s [] a [] l = ground (arith, l.chain.0, l.chain.1)
thread_cleanup-head s [] a (v ∷ vs) l = ground (arith, l.chain.0, l.chain.1, l.not_null.1.0)
thread_cleanup-head s (u ∷ us) a vs l =
    let before : s.prev a ≢ null =
      prev-All s.prev s.next (λ y. y ≢ null) u us a vs l.chain.2 l.not_null.0
        (All-append_left _ us (a ∷ vs) l.not_null.1) in
    ground (arith, l.head)

-- Cleaning up after a client of the list, wherever it stands, takes it out: the others keep
-- their order, stay linked both ways, and no link of a client outside of the list changes.
pub thread_cleanup-Unlinks :
    (s : Server) (us : List ℕ) (a : ℕ) (vs : List ℕ)
    → IsClientList s (us ++ a ∷ vs)
    → Unlinks s (us ++ vs) (thread_cleanup a s)
thread_cleanup-Unlinks s us a vs l =
    unlink-Unlinks s (thread_cleanup a s) us a vs l (λ x n. (thread_cleanup-links s a x n).0)
      (λ x n. (thread_cleanup-links s a x n).1) (thread_cleanup-head s us a vs l)

-- Neither changes the count.
pub link-num : (a : ℕ) (s : Server) → (link_client a s).num_client_threads ≡ s.num_client_threads
unfolding link_client
link-num a s = ground arith

pub cleanup-num :
    (a : ℕ) (s : Server) → (thread_cleanup a s).num_client_threads ≡ s.num_client_threads
unfolding thread_cleanup
cleanup-num a s = ground arith

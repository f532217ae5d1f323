-- ===== src/Server/Lost.antt =====
-- What `delete_all` cancels, and whom it misses.
use c_course_projects.Common.{
  ℕ, zero, suc, ◌≤◌, ◌≡◌, ◌≢◌, ◌==◌, false, some, List, [], ◌∷◌, refl, ap, ◌∙◌, arith, All, All-imp,
  length,
}
use c_course_projects.Server.{
  Server, null, update, link_client, thread_cleanup, cancel_from, cancel_all,
}
use c_course_projects.Server.Chain.{head_or_null, Chain, IsClientList, Chain-frame}
use c_course_projects.Server.Linking.{thread_cleanup-Unlinks}

cancel_from-Chain :
    (fuel p : ℕ) (s : Server) (xs : List ℕ)
    → Chain s.prev s.next p xs
    → All (λ x. x ≢ null) xs
    → length xs ≤ fuel
    → cancel_from fuel (head_or_null xs) s ≡ some xs
unfolding cancel_from
cancel_from-Chain zero p s [] c n le = refl
cancel_from-Chain zero p s (x ∷ xs) c n le = absurd (omega arith)
cancel_from-Chain (suc fuel) p s [] c n le = refl
cancel_from-Chain (suc fuel) p s (x ∷ xs) c n le =
    let more : (x == null) ≡ false = ground (arith, n.0) in
    rw (more, c.1, cancel_from-Chain fuel x s xs c.2 n.1 (omega arith)) refl

-- With fuel for the clients of the list, `delete_all` cancels the threads of exactly these
-- clients, in order, and leaves the list empty.
pub cancel_all-Cancels :
    (fuel : ℕ) (s : Server) (xs : List ℕ)
    → IsClientList s xs
    → length xs ≤ fuel
    → cancel_all fuel s ≡ some (xs, record s { thread_list_head = null })
unfolding cancel_all
cancel_all-Cancels fuel s xs l le =
    let e : cancel_from fuel s.thread_list_head s ≡ some xs =
      ap (λ b. cancel_from fuel b s) l.head
      ∙ cancel_from-Chain fuel null s xs l.chain l.not_null le in
    rw (e, cancel_all) refl

-- `thread_cleanup` of the first client sets the head, whatever it was.
cleanup-first :
    (s : Server) (a h : ℕ)
    → s.prev a ≡ null
    → thread_cleanup a s ≡ thread_cleanup a (record s { thread_list_head = h })
unfolding thread_cleanup
cleanup-first s a h e = ground arith

link_empty :
    (s : Server) (b : ℕ)
    → link_client b (record s { thread_list_head = null })
      ≡ record s { thread_list_head = b; next = update s.next b null }
unfolding link_client
link_empty s b = refl

-- `delete_all` cancels the clients of a list, as on SIGINT. A client that is not among them, and
-- has no previous one, as `client_constructor` leaves it, links itself, and then the first of
-- the cancelled threads cleans up. Then the next `delete_all` cancels the other old clients, and
-- not the new one: it is lost.
pub delete_all-Loses :
    (fuel : ℕ) (s : Server) (a : ℕ) (vs : List ℕ) (b : ℕ)
    → IsClientList s (a ∷ vs)
    → length (a ∷ vs) ≤ fuel
    → b ≢ null
    → All (λ x. x ≢ b) (a ∷ vs)
    → s.prev b ≡ null
    → (s' : Server) × (s'' : Server) × (cancel_all fuel s ≡ some (a ∷ vs, s'))
      × (cancel_all fuel (thread_cleanup a (link_client b s')) ≡ some (vs, s''))
delete_all-Loses fuel s a vs b l le n off e =
    let s1 = record s { thread_list_head = null } in
    let s2 = record s { thread_list_head = a; next = update s.next b null } in
    let l2 : IsClientList s2 (a ∷ vs) = record {
      head = refl;
      chain =
          Chain-frame s.prev s.next s.prev s2.next null (a ∷ vs)
            (All-imp (λ x d. (refl, ground arith)) (a ∷ vs) off) l.chain;
      not_null = l.not_null;
      distinct = l.distinct;
    } in
    let left = (thread_cleanup-Unlinks s2 [] a vs l2).0 in
    let same : thread_cleanup a (link_client b s1) ≡ thread_cleanup a s2 =
      ap (thread_cleanup a) (link_empty s b)
      ∙ cleanup-first (record s { thread_list_head = b; next = update s.next b null }) a a
          l.chain.0 in
    (
      s1,
      record (thread_cleanup a s2) { thread_list_head = null },
      cancel_all-Cancels fuel s (a ∷ vs) l le,
      ap (cancel_all fuel) same
          ∙ cancel_all-Cancels fuel (thread_cleanup a s2) vs left (omega arith),
    )

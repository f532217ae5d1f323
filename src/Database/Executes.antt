-- ===== src/Database/Executes.antt =====
-- What each command of `interpret_command` does to the tree, and with which response it ends.
use c_course_projects.Common.{
  ℕ, ◌≡◌, ◌≢◌, ◌⊎◌, refl, ap, ◌∙◌, inl, inr, Option, some, none, [], ◌∷◌, ◌==◌, if◌then◌else◌,
}
use c_course_projects.Common.Bytes.{Bytes, codes}
use c_course_projects.Database.Tree.{Tree, entries}
use c_course_projects.Database.Sorted.{lookup, insert, erase}
use c_course_projects.Database.Update.{Memory, Outcome, done, null_pointer, overflow, snprintf}
use c_course_projects.Database.Valid.{IsValid}
use c_course_projects.Database.Correct.{Answers, answer, Adds, added, all_ok}
use c_course_projects.Database.Remove.{Removes, removed, LongerNext}
use c_course_projects.Database.Command.{
  processed, FileSystem, scan_word, Run, responds, null_fault, overflow_fault, out_of_fuel, respond,
}

-- Additions and removals lead from the one tree to the other.
pub data Reaches (t : Tree) : Tree → Type 0 where
  here : Reaches t t
  adds :
      (name value : Bytes) {u v : Tree}
      → Reaches t u
      → entries v ≡ insert name value (entries u)
      → Reaches t v
  removes :
      (name : Bytes) {u v : Tree} → Reaches t u → entries v ≡ erase name (entries u) → Reaches t v

pub Reaches-trans : {t u v : Tree} → Reaches t u → Reaches u v → Reaches t v
Reaches-trans r here = r
Reaches-trans r (adds name value q e) = adds name value (Reaches-trans r q) e
Reaches-trans r (removes name q e) = removes name (Reaches-trans r q) e

-- At some point an entry is removed whose successor has a longer name or value.
abbrev pub Overflows : Tree → Type 0
Overflows t = (u : Tree) × (name : Bytes) × Reaches t u × LongerNext name (entries u)

-- How the commands of a file end: with a tree that additions and removals lead to, in the overflow of
-- a removal, or with too little fuel.
abbrev pub Goes : Tree → Run → Type 0
Goes head (responds t _) = Reaches head t × IsValid t
Goes head null_fault = ⊥
Goes head overflow_fault = Overflows head
Goes head out_of_fuel = Unit

pub Goes-after : {t u : Tree} → Reaches t u → (r : Run) → Goes u r → Goes t r
Goes-after r (responds v text) (q, valid) = (Reaches-trans r q, valid)
Goes-after r null_fault g = g
Goes-after r overflow_fault (v, name, q, longer) = (v, name, Reaches-trans r q, longer)
Goes-after r out_of_fuel g = tt

abbrev pub memory : Tree → Memory
memory _ = all_ok

-- An empty answer is replaced.
abbrev not_empty : Bytes → Bytes → Bytes
not_empty instead [] = instead
not_empty instead (c ∷ cs) = c ∷ cs

module _ (len : ℕ) where
  abbrev pub IllFormed : Tree → Run → Type 0
  IllFormed head r = r ≡ responds head (snprintf len (codes "ill-formed command"))

  -- The response to a query, and the tree is as it was.
  abbrev pub Queries : Option (Bytes × Bytes) → Tree → Run → Type 0
  Queries none head r = IllFormed head r
  Queries (some (name, _)) head r =
      r
      ≡ responds head
          (not_empty (snprintf len (codes "not found")) (answer len (lookup name (entries head))))

  abbrev add_reply : Option Bytes → Bytes
  add_reply none = snprintf len (codes "added")
  add_reply (some _) = snprintf len (codes "already in database")

  abbrev remove_reply : Option Bytes → Bytes
  remove_reply none = snprintf len (codes "not in database")
  remove_reply (some _) = snprintf len (codes "removed")

  abbrev pub AddsValue : Bytes → Option (Bytes × Bytes) → Tree → Run → Type 0
  AddsValue name none head r = IllFormed head r
  AddsValue name (some (value, _)) head r =
      (t : Tree) × (r ≡ responds t (add_reply (lookup name (entries head))))
      × (entries t ≡ insert name value (entries head))
      × IsValid t

  abbrev pub AddsWords : Option (Bytes × Bytes) → Tree → Run → Type 0
  AddsWords none head r = IllFormed head r
  AddsWords (some (name, rest)) head r = AddsValue name (scan_word rest) head r

  -- A removal ends, or overflows a buffer where the entry that follows is longer.
  abbrev pub Deletes : Option (Bytes × Bytes) → Tree → Run → Type 0
  Deletes none head r = IllFormed head r
  Deletes (some (name, _)) head r =
      ((t : Tree) × (r ≡ responds t (remove_reply (lookup name (entries head))))
        × (entries t ≡ erase name (entries head))
        × IsValid t)
      ⊎ ((r ≡ overflow_fault) × LongerNext name (entries head))

  abbrev Processed : Run → Type 0
  Processed (responds _ text) = text ≡ snprintf len (codes "file processed")
  Processed _ = Unit

  abbrev pub FilesText : Option Bytes → Tree → Run → Type 0
  FilesText none head r = r ≡ responds head (snprintf len (codes "bad file name"))
  FilesText (some text) head r = Goes head r × Processed r

  -- A file whose lines are carried out.
  abbrev pub Files : FileSystem → Option (Bytes × Bytes) → Tree → Run → Type 0
  Files files none head r = IllFormed head r
  Files files (some (name, _)) head r = FilesText (files name) head r

  -- How a command with the letter `c` ends.
  abbrev pub Executes : FileSystem → ℕ → Bytes → Tree → Run → Type 0
  Executes files c args head r =
      ((c ≡ b'q') × Queries (scan_word args) head r)
      ⊎ ((c ≡ b'a') × AddsWords (scan_word args) head r)
      ⊎ ((c ≡ b'd') × Deletes (scan_word args) head r)
      ⊎ ((c ≡ b'f') × Files files (scan_word args) head r)
      ⊎ ((c ≢ b'q') × (c ≢ b'a') × (c ≢ b'd') × (c ≢ b'f') × IllFormed head r)

  pub IllFormed-Goes : (head : Tree) (r : Run) → IsValid head → IllFormed head r → Goes head r
  IllFormed-Goes head r v e = rw e (here, v)

  Queries-Goes :
      (w : Option (Bytes × Bytes)) (head : Tree) (r : Run)
      → IsValid head
      → Queries w head r
      → Goes head r
  Queries-Goes none head r v e = rw e (here, v)
  Queries-Goes (some (name, rest)) head r v e = rw e (here, v)

  AddsValue-Goes :
      (name : Bytes) (w : Option (Bytes × Bytes)) (head : Tree) (r : Run)
      → IsValid head
      → AddsValue name w head r
      → Goes head r
  AddsValue-Goes name none head r v e = rw e (here, v)
  AddsValue-Goes name (some (value, rest)) head r v (t, e, es, valid) =
      rw e (adds name value here es, valid)

  AddsWords-Goes :
      (w : Option (Bytes × Bytes)) (head : Tree) (r : Run)
      → IsValid head
      → AddsWords w head r
      → Goes head r
  AddsWords-Goes none head r v e = rw e (here, v)
  AddsWords-Goes (some (name, rest)) head r v e = AddsValue-Goes name (scan_word rest) head r v e

  Deletes-Goes :
      (w : Option (Bytes × Bytes)) (head : Tree) (r : Run)
      → IsValid head
      → Deletes w head r
      → Goes head r
  Deletes-Goes none head r v e = rw e (here, v)
  Deletes-Goes (some (name, rest)) head r v (inl (t, e, es, valid)) =
      rw e (removes name here es, valid)
  Deletes-Goes (some (name, rest)) head r v (inr (e, longer)) = rw e (head, name, here, longer)

  FilesText-Goes :
      (text : Option Bytes) (head : Tree) (r : Run)
      → IsValid head
      → FilesText text head r
      → Goes head r
  FilesText-Goes none head r v e = rw e (here, v)
  FilesText-Goes (some text) head r v (g, said) = g

  Files-Goes :
      (files : FileSystem) (w : Option (Bytes × Bytes)) (head : Tree) (r : Run)
      → IsValid head
      → Files files w head r
      → Goes head r
  Files-Goes files none head r v e = rw e (here, v)
  Files-Goes files (some (name, rest)) head r v e = FilesText-Goes (files name) head r v e

  pub processed-FilesText :
      (files : FileSystem) (text : Bytes) (head : Tree) (r : Run)
      → Goes head r
      → FilesText (some text) head (processed files memory len r)
  processed-FilesText files text head (responds h out) g = (g, refl)
  processed-FilesText files text head null_fault g = (g, tt)
  processed-FilesText files text head overflow_fault g = (g, tt)
  processed-FilesText files text head out_of_fuel g = (g, tt)

  pub Executes-Goes :
      (files : FileSystem) (c : ℕ) (args : Bytes) (head : Tree) (r : Run)
      → IsValid head
      → Executes files c args head r
      → Goes head r
  Executes-Goes files c args head r v (inl (e, q)) = Queries-Goes (scan_word args) head r v q
  Executes-Goes files c args head r v (inr (inl (e, a))) =
      AddsWords-Goes (scan_word args) head r v a
  Executes-Goes files c args head r v (inr (inr (inl (e, d)))) =
      Deletes-Goes (scan_word args) head r v d
  Executes-Goes files c args head r v (inr (inr (inr (inl (e, g))))) =
      Files-Goes files (scan_word args) head r v g
  Executes-Goes files c args head r v (inr (inr (inr (inr (q, a, d, f, e))))) = rw e (here, v)

  text-added :
      (o : Option Bytes) (k : ℕ)
      → k ≡ added o
      → (if k == 0
          then snprintf len (codes "already in database")
          else snprintf len (codes "added"))
        ≡ add_reply o
  text-added none k e = rw e refl
  text-added (some v) k e = rw e refl

  text-removed :
      (o : Option Bytes) (k : ℕ)
      → k ≡ removed o
      → (if k == 0 then snprintf len (codes "not in database") else snprintf len (codes "removed"))
        ≡ remove_reply o
  text-removed none k e = rw e refl
  text-removed (some v) k e = rw e refl

  text-queried :
      (out : Bytes)
      → (elim out [ [] ↦ snprintf len (codes "not found") | c ∷ cs ↦ c ∷ cs ])
        ≡ not_empty (snprintf len (codes "not found")) out
  text-queried [] = refl
  text-queried (c ∷ cs) = refl

  pub add-respond :
      (name value : Bytes) (rest : Bytes) (head : Tree) (o : Outcome ℕ)
      → Adds name value head o
      → AddsValue name (some (value, rest)) head (
          respond
            (λ k.
              if k == 0
              then snprintf len (codes "already in database")
              else snprintf len (codes "added"))
            o)
  add-respond name value rest head (done k t _) (e, es, valid) =
      (t, ap (responds t) (text-added (lookup name (entries head)) k e), es, valid)
  add-respond name value rest head null_pointer h = absurd h
  add-respond name value rest head overflow h = absurd h

  pub remove-respond :
      (name rest : Bytes) (head : Tree) (o : Outcome ℕ)
      → Removes name head o
      → Deletes (some (name, rest)) head (
          respond
            (λ k.
              if k == 0
              then snprintf len (codes "not in database")
              else snprintf len (codes "removed"))
            o)
  remove-respond name rest head (done k t _) (e, es, valid) =
      inl (t, ap (responds t) (text-removed (lookup name (entries head)) k e), es, valid)
  remove-respond name rest head null_pointer h = absurd h
  remove-respond name rest head overflow h = inr (refl, h)

  pub query-respond :
      (name rest : Bytes) (head : Tree) (o : Outcome Bytes)
      → Answers name len head o
      → Queries
          (some (name, rest))
          head
          (respond (λ out. elim out [ [] ↦ snprintf len (codes "not found") | c ∷ cs ↦ c ∷ cs ]) o)
  query-respond name rest head (done out t _) (e, same) =
      ap (responds t) (text-queried out ∙ ap (not_empty (snprintf len (codes "not found"))) e)
      ∙ ap
          (λ u. responds u (
            not_empty (snprintf len (codes "not found")) (answer len (lookup name (entries head)))))
          same
  query-respond name rest head null_pointer h = absurd h
  query-respond name rest head overflow h = absurd h

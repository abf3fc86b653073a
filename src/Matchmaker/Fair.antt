-- ===== src/Matchmaker/Fair.antt =====
-- Fairness of `tick` in src/tcp/matchmaker.js: a match takes the entries that joined first.
use free_fire.Prelude.{
  ℕ, suc, zero, ◌≤◌, List, [], ◌∷◌, leb, All, arith, take, drop, Bool-cases, inl, inr,
}
use free_fire.Matchmaker.Queue.{Entry}
use free_fire.Matchmaker.Groups.{insert_entry, sort_entries}

abbrev NotBefore : ℕ → List Entry → Type 0
NotBefore t = All (λ x. t ≤ x.joined_at)

abbrev InOrder : List Entry → Type 0
InOrder [] = Unit
InOrder (x ∷ xs) = NotBefore x.joined_at xs × InOrder xs

NotBefore-mono : (s t : ℕ) (xs : List Entry) → s ≤ t → NotBefore t xs → NotBefore s xs
NotBefore-mono s t [] h k = tt
NotBefore-mono s t (x ∷ xs) h k = (omega arith, NotBefore-mono s t xs h k.1)

insert-NotBefore :
    (t : ℕ) (e : Entry) (xs : List Entry)
    → t ≤ e.joined_at
    → NotBefore t xs
    → NotBefore t (insert_entry e xs)
unfolding insert_entry
insert-NotBefore t e [] h k = (h, tt)
insert-NotBefore t e (x ∷ xs) h k = ground (arith, insert-NotBefore t e xs h k.1)

insert-InOrder : (e : Entry) (xs : List Entry) → InOrder xs → InOrder (insert_entry e xs)
unfolding insert_entry
insert-InOrder e [] h = (tt, tt)
insert-InOrder e (x ∷ xs) h = elim (Bool-cases (leb e.joined_at x.joined_at)) [
  | inl k ↦ rw k ((ground arith, NotBefore-mono e.joined_at x.joined_at xs (ground arith) h.0), h)
  | inr k ↦ rw k (insert-NotBefore x.joined_at e xs (ground arith) h.0, insert-InOrder e xs h.1)
]

sort-InOrder : (es : List Entry) → InOrder (sort_entries es)
unfolding sort_entries
sort-InOrder [] = tt
sort-InOrder (e ∷ es) = insert-InOrder e (sort_entries es) (sort-InOrder es)

take-NotBefore : (n t : ℕ) (xs : List Entry) → NotBefore t xs → NotBefore t (drop n xs)
take-NotBefore zero t xs h = h
take-NotBefore (suc n) t [] h = tt
take-NotBefore (suc n) t (x ∷ xs) h = take-NotBefore n t xs h.1

split-InOrder :
    (n : ℕ) (xs : List Entry)
    → InOrder xs
    → All (λ x. NotBefore x.joined_at (drop n xs)) (take n xs)
split-InOrder zero xs h = tt
split-InOrder (suc n) [] h = tt
split-InOrder (suc n) (x ∷ xs) h = (take-NotBefore n x.joined_at xs h.0, split-InOrder n xs h.1)

-- Whoever is taken into a match of `size` players joined no later than anyone of the same mode who
-- is left waiting.
pub taken-first :
    (size : ℕ) (es : List Entry)
    → All
        (λ x. All (λ y. x.joined_at ≤ y.joined_at) (drop size (sort_entries es)))
        (take size (sort_entries es))
taken-first size es = split-InOrder size (sort_entries es) (sort-InOrder es)

-- ===== src/Ipblock/BlockSet/Lengths.antt =====
-- The prefix lengths of ipblock/set.go, sorted, without repetitions, the longest first.
use blue.Prelude.{
  ℕ, ◌≤◌, ltb, ◌==◌, ◌≡◌, refl, ap, ◌∙◌, Bool, false, ◌||◌, List, [], ◌∷◌, ◌++◌, All, All-weaken,
  All-insert_sorted, insert_sorted, stable_sort, Bool-cases, inl, inr, arith,
}
use blue.Ipblock.BlockSet.{compact, reverse_onto, longest_first}

abbrev pub has : ℕ → List ℕ → Bool
has n [] = false
has n (m ∷ ns) = (n == m) || has n ns

abbrev Ascending : List ℕ → Type 0
Ascending [] = Unit {0}
Ascending (n ∷ ns) = All (λ m. n ≤ m) ns × Ascending ns

abbrev pub Descending : List ℕ → Type 0
Descending [] = Unit {0}
Descending (n ∷ ns) = All (λ m. m ≤ n) ns × Descending ns

pub has-append : (n m : ℕ) (ns : List ℕ) → has n (ns ++ m ∷ []) ≡ (has n ns || (n == m))
has-append n m [] = ground arith
has-append n m (k ∷ ns) = ground (arith, has-append n m ns)

has-insert_sorted :
    (n m : ℕ) (ns : List ℕ) → has n (insert_sorted ltb m ns) ≡ ((n == m) || has n ns)
unfolding insert_sorted
has-insert_sorted n m [] = refl
has-insert_sorted n m (k ∷ ns) = ground (arith, has-insert_sorted n m ns)

has-stable_sort : (n : ℕ) (ns : List ℕ) → has n (stable_sort ltb ns) ≡ has n ns
unfolding stable_sort
has-stable_sort n [] = refl
has-stable_sort n (m ∷ ns) =
    has-insert_sorted n m (stable_sort ltb ns) ∙ ap (λ b. (n == m) || b) (has-stable_sort n ns)

insert_sorted-Ascending : (m : ℕ) (ns : List ℕ) → Ascending ns → Ascending (insert_sorted ltb m ns)
unfolding insert_sorted
insert_sorted-Ascending m [] s = (tt, tt)
insert_sorted-Ascending m (k ∷ ns) s = elim (Bool-cases (ltb k m)) [
  | inl e ↦ rw e (
    All-insert_sorted ltb (λ x. k ≤ x) m ns (ground (arith, e)) s.0,
    insert_sorted-Ascending m ns s.1,
  )
  | inr e ↦
      let le : m ≤ k = ground (arith, e) in
      rw e ((le, All-weaken ns (λ x h. omega (arith, le, h)) s.0), s)
]

stable_sort-Ascending : (ns : List ℕ) → Ascending (stable_sort ltb ns)
unfolding stable_sort
stable_sort-Ascending [] = tt
stable_sort-Ascending (m ∷ ns) =
    insert_sorted-Ascending m (stable_sort ltb ns) (stable_sort-Ascending ns)

has-compact : (n : ℕ) (ns : List ℕ) → has n (compact ns) ≡ has n ns
unfolding compact
has-compact n [] = refl
has-compact n (m ∷ []) = refl
has-compact n (m ∷ k ∷ ns) = ground (arith, has-compact n (k ∷ ns))

All-compact : (P : ℕ → Type 0) (ns : List ℕ) → All P ns → All P (compact ns)
unfolding compact
All-compact P [] a = tt
All-compact P (m ∷ []) a = a
All-compact P (m ∷ k ∷ ns) a = elim (Bool-cases (m == k)) [
  | inl e ↦ rw e (All-compact P (k ∷ ns) a.1)
  | inr e ↦ rw e (a.0, All-compact P (k ∷ ns) a.1)
]

compact-Ascending : (ns : List ℕ) → Ascending ns → Ascending (compact ns)
unfolding compact
compact-Ascending [] s = tt
compact-Ascending (m ∷ []) s = s
compact-Ascending (m ∷ k ∷ ns) s = elim (Bool-cases (m == k)) [
  | inl e ↦ rw e (compact-Ascending (k ∷ ns) s.1)
  | inr e ↦ rw e (All-compact (λ x. m ≤ x) (k ∷ ns) s.0, compact-Ascending (k ∷ ns) s.1)
]

has-reverse_onto : (n : ℕ) (acc ns : List ℕ) → has n (reverse_onto acc ns) ≡ (has n acc || has n ns)
unfolding reverse_onto
has-reverse_onto n acc [] = ground arith
has-reverse_onto n acc (m ∷ ns) = has-reverse_onto n (m ∷ acc) ns ∙ (ground arith)

-- What is reversed onto a descending list that ends the ascending one before it.
reverse_onto-Descending :
    (acc ns : List ℕ)
    → Descending acc
    → Ascending ns
    → All (λ a. All (λ m. a ≤ m) ns) acc
    → Descending (reverse_onto acc ns)
unfolding reverse_onto
reverse_onto-Descending acc [] d s below = d
reverse_onto-Descending acc (m ∷ ns) d s below =
    reverse_onto-Descending (m ∷ acc) ns (All-weaken acc (λ a h. h.0) below, d) s.1
      (s.0, All-weaken acc (λ a h. h.1) below)

pub has-longest_first : (n : ℕ) (ns : List ℕ) → has n (longest_first ns) ≡ has n ns
has-longest_first n ns =
    has-reverse_onto n [] (compact (stable_sort ltb ns))
    ∙ has-compact n (stable_sort ltb ns)
    ∙ has-stable_sort n ns

pub longest_first-Descending : (ns : List ℕ) → Descending (longest_first ns)
longest_first-Descending ns =
    reverse_onto-Descending [] (compact (stable_sort ltb ns)) tt
      (compact-Ascending (stable_sort ltb ns) (stable_sort-Ascending ns)) tt

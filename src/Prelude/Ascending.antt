-- ===== src/Prelude/Ascending.antt =====
-- Lists of texts in strictly ascending order: what sort.Strings makes of texts that are all
-- different, and that the order is determined by the members.
use mathlib.Core.Path.{◌≡◌, refl, ap, ap₂, subst, ◌∙◌}
use mathlib.Core.Logic.{inl, inr}
use mathlib.Core.Bool.{Bool, true, false, ◌||◌}
use mathlib.Core.List.{List, [], ◌∷◌}
use native.Mathlib.Omega.{arith}
use blue.Prelude.Tests.{Bool-cases}
use blue.Prelude.Lists.{All}
use blue.Prelude.Bytes.{
  Text, text_eq, text_lt, text_eq→eq, text_eq_refl, text_eq_sym, text_lt_irrefl, text_lt_trans,
  text_lt_total,
}
use blue.Prelude.Sort.{insert_sorted, stable_sort, All-insert_sorted}

abbrev pub mem_text : List Text → Text → Bool
mem_text [] a = false
mem_text (x ∷ xs) a = text_eq x a || mem_text xs a

abbrev pub Distinct : List Text → Type 0
Distinct [] = Unit
Distinct (x ∷ xs) = (mem_text xs x ≡ false) × Distinct xs

abbrev pub Ascending : List Text → Type 0
Ascending [] = Unit
Ascending (x ∷ xs) = All (λ y. text_lt x y ≡ true) xs × Ascending xs

All-mem_text :
    (P : Text → Type 0) (xs : List Text) (a : Text) → All P xs → mem_text xs a ≡ true → P a
All-mem_text P [] a h m = absurd (cc m)
All-mem_text P (x ∷ xs) a h m = elim (Bool-cases (text_eq x a)) [
  | inl e ↦ subst P (text_eq→eq x a e) h.0
  | inr e ↦ All-mem_text P xs a h.1 (ground arith)
]

pub mem_text-insert_sorted :
    (x : Text) (ys : List Text) (a : Text)
    → mem_text (insert_sorted text_lt x ys) a ≡ (text_eq x a || mem_text ys a)
unfolding insert_sorted
mem_text-insert_sorted x [] a = refl
mem_text-insert_sorted x (y ∷ ys) a = ground (arith, mem_text-insert_sorted x ys a)

pub mem_text-stable_sort :
    (xs : List Text) (a : Text) → mem_text (stable_sort text_lt xs) a ≡ mem_text xs a
unfolding stable_sort
mem_text-stable_sort [] a = refl
mem_text-stable_sort (x ∷ xs) a =
    mem_text-insert_sorted x (stable_sort text_lt xs) a
    ∙ ap (λ b. text_eq x a || b) (mem_text-stable_sort xs a)

text_lt-All :
    (x y : Text) (zs : List Text)
    → text_lt x y ≡ true
    → All (λ z. text_lt y z ≡ true) zs
    → All (λ z. text_lt x z ≡ true) zs
text_lt-All x y [] h p = tt
text_lt-All x y (z ∷ zs) h p = (text_lt_trans x y z h p.0, text_lt-All x y zs h p.1)

text_lt_other : (x y : Text) → text_eq x y ≡ false → text_lt y x ≡ false → text_lt x y ≡ true
text_lt_other x y ne h = elim (Bool-cases (text_lt x y)) [
  | inl e ↦ e
  | inr e ↦ absurd (cc (ne, ap (text_eq x) (text_lt_total x y e h), text_eq_refl x))
]

insert_sorted-Ascending :
    (x : Text) (ys : List Text)
    → mem_text ys x ≡ false
    → Ascending ys
    → Ascending (insert_sorted text_lt x ys)
unfolding insert_sorted
insert_sorted-Ascending x [] m s = (tt, tt)
insert_sorted-Ascending x (y ∷ ys) m s = elim (Bool-cases (text_lt y x)) [
  | inl e ↦ rw e (
    All-insert_sorted text_lt (λ z. text_lt y z ≡ true) x ys e s.0,
    insert_sorted-Ascending x ys (ground arith) s.1,
  )
  | inr e ↦
      let lt : text_lt x y ≡ true = text_lt_other x y (ground (arith, text_eq_sym x y)) e in
      rw e ((lt, text_lt-All x y ys lt s.0), s)
]

pub stable_sort-Ascending : (xs : List Text) → Distinct xs → Ascending (stable_sort text_lt xs)
unfolding stable_sort
stable_sort-Ascending [] d = tt
stable_sort-Ascending (x ∷ xs) d =
    insert_sorted-Ascending x (stable_sort text_lt xs) (mem_text-stable_sort xs x ∙ d.0)
      (stable_sort-Ascending xs d.1)

pub above-mem_text :
    (x : Text) (xs : List Text) → All (λ y. text_lt x y ≡ true) xs → mem_text xs x ≡ false
above-mem_text x xs h = elim (Bool-cases (mem_text xs x)) [
  | inr e ↦ e
  | inl e ↦ absurd (cc (All-mem_text (λ y. text_lt x y ≡ true) xs x h e, text_lt_irrefl x))
]

heads_eq :
    (x y : Text) (xs ys : List Text)
    → Ascending (x ∷ xs)
    → Ascending (y ∷ ys)
    → (mem_text (y ∷ ys) x ≡ true)
    → (mem_text (x ∷ xs) y ≡ true)
    → x ≡ y
heads_eq x y xs ys sx sy hx hy = elim (Bool-cases (text_eq x y)) [
  | inl e ↦ text_eq→eq x y e
  | inr e ↦
      let below : text_lt x y ≡ true =
        All-mem_text (λ z. text_lt x z ≡ true) xs y sx.0 (ground arith) in
      let above : text_lt y x ≡ true =
        All-mem_text (λ z. text_lt y z ≡ true) ys x sy.0 (ground (arith, text_eq_sym x y)) in
      absurd (cc (text_lt_trans x y x below above, text_lt_irrefl x))
]

tails_eq :
    (x y a : Text) (xs ys : List Text)
    → x ≡ y
    → mem_text xs x ≡ false
    → mem_text ys y ≡ false
    → mem_text (x ∷ xs) a ≡ mem_text (y ∷ ys) a
    → mem_text xs a ≡ mem_text ys a
tails_eq x y a xs ys e mx my h = elim (Bool-cases (text_eq x a)) [
  | inl same ↦ let xa = text_eq→eq x a same in cc
  | inr other ↦ ground (arith, ap (λ z. text_eq z a) e)
]

-- Two ascending lists with the same members are equal.
pub Ascending-unique :
    (xs ys : List Text)
    → Ascending xs
    → Ascending ys
    → ((a : Text) → mem_text xs a ≡ mem_text ys a)
    → xs ≡ ys
Ascending-unique [] [] sx sy h = refl
Ascending-unique [] (y ∷ ys) sx sy h = absurd (ground (arith, h y, text_eq_refl y))
Ascending-unique (x ∷ xs) [] sx sy h = absurd (ground (arith, h x, text_eq_refl x))
Ascending-unique (x ∷ xs) (y ∷ ys) sx sy h =
    let first : x ≡ y =
      heads_eq x y xs ys sx sy (ground (arith, h x, text_eq_refl x))
        (ground (arith, h y, text_eq_refl y)) in
    ap₂ ◌∷◌ first (
      Ascending-unique xs ys sx.1 sy.1 (λ a.
        tails_eq x y a xs ys first (above-mem_text x xs sx.0) (above-mem_text y ys sy.0) (h a)))

pub Ascending-Distinct : (xs : List Text) → Ascending xs → Distinct xs
Ascending-Distinct [] s = tt
Ascending-Distinct (x ∷ xs) s = (above-mem_text x xs s.0, Ascending-Distinct xs s.1)

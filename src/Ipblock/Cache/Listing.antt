-- ===== src/Ipblock/Cache/Listing.antt =====
-- What a set of ipblock/set.go lists, as a map.
use blue.Prelude.{
  ℕ, ◌≡◌, refl, sym, ap, ◌∙◌, List, [], ◌∷◌, All, Option, none, some, Bool-cases, inl, inr,
  if◌then◌else◌, insert_sorted, stable_sort, All-stable_sort,
}
use blue.Ipblock.Address.{Prefix, prefix_eq}
use blue.Ipblock.Covering.{prefix_eq→eq}
use blue.Ipblock.BlockSet.{
  Block, BlockSet, active, find_block, new_block_set, list, actives, prefix_before, index, step,
  no_blocks,
}
use blue.Ipblock.BlockSet.Index.{latest_on, new_block_set-find_block}
use blue.Ipblock.Memory.Maps.{IsMap, put_block-IsMap, put_block-All, latest_on-find_block, flipped}

-- The block that was in force.
abbrev pub if_active : ℕ → Option Block → Option Block
if_active now none = none
if_active now (some b) = if active b now then some b else none

pub actives-gone :
    (now : ℕ) (bs : List Block) (p : Prefix)
    → find_block bs p ≡ none
    → find_block (actives now bs) p ≡ none
unfolding actives find_block
actives-gone now [] p h = refl
actives-gone now (b ∷ bs) p h = elim (Bool-cases (prefix_eq b.prefix p)) [
  | inl same ↦ absurd (cc (rw same at h))
  | inr other ↦ elim (Bool-cases (active b now)) [
    | inl on ↦ rw (on, other) (actives-gone now bs p (rw other at h))
    | inr off ↦ rw off (actives-gone now bs p (rw other at h))
  ]
]

pub find_block-actives :
    (now : ℕ) (bs : List Block) (p : Prefix)
    → IsMap bs
    → find_block (actives now bs) p ≡ if_active now (find_block bs p)
unfolding actives find_block
find_block-actives now [] p m = refl
find_block-actives now (b ∷ bs) p m = elim (Bool-cases (prefix_eq b.prefix p)) [
  | inl same ↦
      let gone : find_block bs p ≡ none =
        ap (find_block bs) (sym (prefix_eq→eq b.prefix p same)) ∙ m.0 in
      elim (Bool-cases (active b now)) [
        | inl on ↦ rw (on, same) (rw on refl)
        | inr off ↦ rw (off, same) (actives-gone now bs p gone ∙ rw off refl)
      ]
  | inr other ↦ elim (Bool-cases (active b now)) [
    | inl on ↦ rw (on, other) (find_block-actives now bs p m.1)
    | inr off ↦ rw (off, other) (find_block-actives now bs p m.1)
  ]
]

pub actives-IsMap : (now : ℕ) (bs : List Block) → IsMap bs → IsMap (actives now bs)
unfolding actives
actives-IsMap now [] m = tt
actives-IsMap now (b ∷ bs) m = elim (Bool-cases (active b now)) [
  | inl on ↦ rw on (actives-gone now bs b.prefix m.0, actives-IsMap now bs m.1)
  | inr off ↦ rw off (actives-IsMap now bs m.1)
]

pub actives-All :
    (P : Block → Type 0) (now : ℕ) (bs : List Block) → All P bs → All P (actives now bs)
unfolding actives
actives-All P now [] a = tt
actives-All P now (b ∷ bs) a = elim (Bool-cases (active b now)) [
  | inl on ↦ rw on (a.0, actives-All P now bs a.1)
  | inr off ↦ rw off (actives-All P now bs a.1)
]

pub find_block-insert_sorted :
    (b : Block) (bs : List Block) (p : Prefix)
    → find_block bs b.prefix ≡ none
    → find_block (insert_sorted prefix_before b bs) p
      ≡ (if prefix_eq b.prefix p then some b else find_block bs p)
unfolding insert_sorted find_block
find_block-insert_sorted b [] p h = refl
find_block-insert_sorted b (c ∷ bs) p h = elim (Bool-cases (prefix_eq c.prefix b.prefix)) [
  | inl same ↦ absurd (cc (rw same at h))
  | inr other ↦ elim (Bool-cases (prefix_before c b)) [
    | inr first ↦ rw first refl
    | inl later ↦ rw later (elim (Bool-cases (prefix_eq c.prefix p)) [
      | inl here ↦
          rw
            (
              here,
              sym (ap (prefix_eq b.prefix) (prefix_eq→eq c.prefix p here))
                  ∙ flipped c.prefix b.prefix other,
            )
            refl
      | inr away ↦ rw (away, find_block-insert_sorted b bs p (rw other at h)) refl
    ])
  ]
]

pub find_block-stable_sort :
    (bs : List Block) (p : Prefix)
    → IsMap bs
    → find_block (stable_sort prefix_before bs) p ≡ find_block bs p
unfolding stable_sort find_block
find_block-stable_sort [] p m = refl
find_block-stable_sort (b ∷ bs) p m =
    find_block-insert_sorted b (stable_sort prefix_before bs) p
      (find_block-stable_sort bs b.prefix m.1 ∙ m.0)
    ∙ ap (λ (o : Option Block). if prefix_eq b.prefix p then some b else o)
        (find_block-stable_sort bs p m.1)

pub insert_sorted-IsMap :
    (b : Block) (bs : List Block)
    → find_block bs b.prefix ≡ none
    → IsMap bs
    → IsMap (insert_sorted prefix_before b bs)
unfolding insert_sorted find_block
insert_sorted-IsMap b [] h m = (refl, tt)
insert_sorted-IsMap b (c ∷ bs) h m = elim (Bool-cases (prefix_eq c.prefix b.prefix)) [
  | inl same ↦ absurd (cc (rw same at h))
  | inr other ↦ elim (Bool-cases (prefix_before c b)) [
    | inr first ↦ rw first (h, m)
    | inl later ↦ rw later (
      find_block-insert_sorted b bs c.prefix (rw other at h)
          ∙ rw (flipped c.prefix b.prefix other) m.0,
      insert_sorted-IsMap b bs (rw other at h) m.1,
    )
  ]
]

pub stable_sort-IsMap : (bs : List Block) → IsMap bs → IsMap (stable_sort prefix_before bs)
unfolding stable_sort
stable_sort-IsMap [] m = tt
stable_sort-IsMap (b ∷ bs) m =
    insert_sorted-IsMap b (stable_sort prefix_before bs)
      (find_block-stable_sort bs b.prefix m.1 ∙ m.0) (stable_sort-IsMap bs m.1)

pub index-IsMap :
    (s : BlockSet) (bs : List Block) → IsMap s.by_prefix → IsMap (index s bs).by_prefix
unfolding index
index-IsMap s [] m = m
index-IsMap s (b ∷ bs) m = index-IsMap (step s b) bs (put_block-IsMap s.by_prefix b m)

pub index-All :
    (P : Block → Type 0) (s : BlockSet) (bs : List Block)
    → All P s.by_prefix
    → All P bs
    → All P (index s bs).by_prefix
unfolding index
index-All P s [] a h = a
index-All P s (b ∷ bs) a h = index-All P (step s b) bs (put_block-All P s.by_prefix b a h.0) h.1

pub by_prefix-IsMap : (bs : List Block) → IsMap (new_block_set bs).by_prefix
unfolding new_block_set
by_prefix-IsMap bs = index-IsMap no_blocks bs tt

pub list-All :
    (P : Block → Type 0) (bs : List Block) (now : ℕ)
    → All P bs
    → All P (list (new_block_set bs) now)
unfolding list new_block_set
list-All P bs now a =
    All-stable_sort prefix_before P (actives now (index no_blocks bs).by_prefix)
      (actives-All P now (index no_blocks bs).by_prefix (index-All P no_blocks bs tt a))

-- What a set lists has the blocks of the set that are in force.
pub latest_on-list :
    (bs : List Block) (now : ℕ) (p : Prefix)
    → latest_on (list (new_block_set bs) now) p ≡ if_active now (latest_on bs p)
unfolding list
latest_on-list bs now p =
    let db = (new_block_set bs).by_prefix in
    let m : IsMap db = by_prefix-IsMap bs in
    let a : IsMap (actives now db) = actives-IsMap now db m in
    latest_on-find_block (stable_sort prefix_before (actives now db)) p
      (stable_sort-IsMap (actives now db) a)
    ∙ find_block-stable_sort (actives now db) p a
    ∙ find_block-actives now db p m
    ∙ ap (if_active now) (new_block_set-find_block bs p)

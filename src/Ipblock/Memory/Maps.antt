-- ===== src/Ipblock/Memory/Maps.antt =====
-- The lists of blocks of ipblock/memory.go as maps.
use blue.Prelude.{
  ◌≡◌, refl, sym, ap, ◌∙◌, false, List, [], ◌∷◌, All, none, Bool-cases, inl, inr, arith,
}
use blue.Ipblock.Address.{Prefix, prefix_eq}
use blue.Ipblock.Covering.{prefix_eq→eq, prefix_eq_refl}
use blue.Ipblock.BlockSet.{Block, find_block, put_block, remove_block}
use blue.Ipblock.BlockSet.Index.{
  latest_on, find_block-put_block, find_block-remove_block, or_else-none,
}

-- A list of blocks as a map: one block on a prefix.
abbrev pub IsMap : List Block → Type 0
IsMap [] = Unit {0}
IsMap (b ∷ bs) = (find_block bs b.prefix ≡ none) × IsMap bs

pub flipped : (p q : Prefix) → prefix_eq p q ≡ false → prefix_eq q p ≡ false
flipped p q h = elim (Bool-cases (prefix_eq q p)) [
  | inr other ↦ other
  | inl same ↦ absurd (cc (ap (prefix_eq p) (prefix_eq→eq q p same), prefix_eq_refl p, h))
]

pub put_block-IsMap : (bs : List Block) (b : Block) → IsMap bs → IsMap (put_block bs b)
unfolding put_block find_block
put_block-IsMap [] b m = (refl, tt)
put_block-IsMap (c ∷ bs) b m = elim (Bool-cases (prefix_eq c.prefix b.prefix)) [
  | inl same ↦ rw same (ap (find_block bs) (sym (prefix_eq→eq c.prefix b.prefix same)) ∙ m.0, m.1)
  | inr other ↦ rw other (
    find_block-put_block bs b c.prefix ∙ rw (flipped c.prefix b.prefix other) m.0,
    put_block-IsMap bs b m.1,
  )
]

pub remove_block-IsMap : (bs : List Block) (p : Prefix) → IsMap bs → IsMap (remove_block bs p)
unfolding remove_block
remove_block-IsMap [] p m = tt
remove_block-IsMap (c ∷ bs) p m = elim (Bool-cases (prefix_eq c.prefix p)) [
  | inl same ↦ rw same (remove_block-IsMap bs p m.1)
  | inr other ↦
      rw other
        (find_block-remove_block bs p c.prefix ∙ rw m.0 (ground arith), remove_block-IsMap bs p m.1)
]

pub put_block-All :
    (P : Block → Type 0) (bs : List Block) (b : Block) → All P bs → P b → All P (put_block bs b)
unfolding put_block
put_block-All P [] b a h = (h, tt)
put_block-All P (c ∷ bs) b a h = elim (Bool-cases (prefix_eq c.prefix b.prefix)) [
  | inl same ↦ rw same (h, a.1)
  | inr other ↦ rw other (a.0, put_block-All P bs b a.1 h)
]

pub remove_block-All :
    (P : Block → Type 0) (bs : List Block) (p : Prefix) → All P bs → All P (remove_block bs p)
unfolding remove_block
remove_block-All P [] p a = tt
remove_block-All P (c ∷ bs) p a = elim (Bool-cases (prefix_eq c.prefix p)) [
  | inl same ↦ rw same (remove_block-All P bs p a.1)
  | inr other ↦ rw other (a.0, remove_block-All P bs p a.1)
]

pub latest_on-find_block :
    (bs : List Block) (p : Prefix) → IsMap bs → latest_on bs p ≡ find_block bs p
unfolding latest_on find_block
latest_on-find_block [] p m = refl
latest_on-find_block (c ∷ bs) p m = elim (Bool-cases (prefix_eq c.prefix p)) [
  | inl same ↦
      let gone : find_block bs p ≡ none =
        ap (find_block bs) (sym (prefix_eq→eq c.prefix p same)) ∙ m.0 in
      rw (same, latest_on-find_block bs p m.1, gone) refl
  | inr other ↦ rw (other, latest_on-find_block bs p m.1) (or_else-none (find_block bs p))
]

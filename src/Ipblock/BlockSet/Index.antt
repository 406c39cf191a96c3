-- ===== src/Ipblock/BlockSet/Index.antt =====
-- newBlockSet of ipblock/set.go: what its map and its lengths hold.
use blue.Prelude.{
  ℕ, ◌==◌, ◌≡◌, refl, sym, ap, ◌∙◌, Bool, true, false, not, ◌&&◌, ◌||◌, List, [], ◌∷◌, ◌++◌, Option,
  none, some, Bool-cases, inl, inr, if◌then◌else◌, arith,
}
use mathlib.Core.Path.{subst}
use blue.Ipblock.Address.{Prefix, bits, is4, prefix_eq}
use blue.Ipblock.Covering.{prefix_eq→eq, prefix_eq_refl}
use blue.Ipblock.BlockSet.{
  Block, BlockSet, find_block, put_block, remove_block, is_some, is_blocked, index, step, no_blocks,
  longest_first, new_block_set,
}
use blue.Ipblock.BlockSet.Lengths.{has, has-append, has-longest_first}

abbrev pub or_else : Option Block → Option Block → Option Block
or_else none o = o
or_else (some c) o = some c

-- The last block on a prefix.
unfoldable pub latest_on : List Block → Prefix → Option Block
latest_on [] p = none
latest_on (b ∷ bs) p = or_else (latest_on bs p) (if prefix_eq b.prefix p then some b else none)

or_else_if :
    (o r : Option Block) (e : Bool) (b : Block)
    → or_else o (if e then some b else r) ≡ or_else (or_else o (if e then some b else none)) r
or_else_if none r true b = refl
or_else_if none r false b = refl
or_else_if (some c) r e b = refl

prefix_eq-right : (p q r : Prefix) → prefix_eq q r ≡ true → prefix_eq p q ≡ prefix_eq p r
prefix_eq-right p q r h = ap (prefix_eq p) (prefix_eq→eq q r h)

prefix_eq-left : (p q r : Prefix) → prefix_eq p q ≡ true → prefix_eq p r ≡ prefix_eq q r
prefix_eq-left p q r h = ap (λ (x : Prefix). prefix_eq x r) (prefix_eq→eq p q h)

pub find_block-put_block :
    (bs : List Block) (b : Block) (p : Prefix)
    → find_block (put_block bs b) p ≡ (if prefix_eq b.prefix p then some b else find_block bs p)
unfolding find_block put_block
find_block-put_block [] b p = refl
find_block-put_block (c ∷ bs) b p = elim (Bool-cases (prefix_eq c.prefix b.prefix)) [
  | inl same ↦ rw (same, prefix_eq-left c.prefix b.prefix p same) (ground arith)
  | inr other ↦ rw other (elim (Bool-cases (prefix_eq b.prefix p)) [
    | inl here ↦
        rw
          (
            here,
            sym (prefix_eq-right c.prefix b.prefix p here) ∙ other,
            find_block-put_block bs b p,
          )
          (rw here refl)
    | inr away ↦ rw (away, find_block-put_block bs b p) (rw away refl)
  ])
]

pub find_block-remove_block :
    (bs : List Block) (q p : Prefix)
    → find_block (remove_block bs q) p ≡ (if prefix_eq q p then none else find_block bs p)
unfolding find_block remove_block
find_block-remove_block [] q p = ground arith
find_block-remove_block (c ∷ bs) q p = elim (Bool-cases (prefix_eq c.prefix q)) [
  | inl same ↦
      rw (same, find_block-remove_block bs q p, prefix_eq-left c.prefix q p same) (ground arith)
  | inr other ↦ rw other (elim (Bool-cases (prefix_eq q p)) [
    | inl here ↦
        rw (here, sym (prefix_eq-right c.prefix q p here) ∙ other, find_block-remove_block bs q p)
          (rw here refl)
    | inr away ↦ rw (away, find_block-remove_block bs q p) (rw away refl)
  ])
]

index-find_block :
    (s : BlockSet) (bs : List Block) (p : Prefix)
    → find_block (index s bs).by_prefix p ≡ or_else (latest_on bs p) (find_block s.by_prefix p)
unfolding index latest_on
index-find_block s [] p = refl
index-find_block s (b ∷ bs) p =
    index-find_block (step s b) bs p
    ∙ ap (or_else (latest_on bs p)) (find_block-put_block s.by_prefix b p)
    ∙ or_else_if (latest_on bs p) (find_block s.by_prefix p) (prefix_eq b.prefix p) b

abbrev pub lengths_of : BlockSet → Bool → List ℕ
lengths_of s four = if four then s.lengths4 else s.lengths6

-- Whether the lengths of a set have that of a prefix, if there is a block on it.
abbrev listed : BlockSet → Prefix → Bool
listed s p = not (is_blocked s.by_prefix p) || has (bits p) (lengths_of s (is4 p.ip))

is_blocked-put_block :
    (bs : List Block) (b : Block) (p : Prefix)
    → is_blocked (put_block bs b) p ≡ (prefix_eq b.prefix p || is_blocked bs p)
is_blocked-put_block bs b p = ap is_some (find_block-put_block bs b p) ∙ (ground arith)

abbrev same_kind : Bool → Bool → Bool
same_kind true four = four
same_kind false four = not four

has-extended :
    (c : Bool) (ns : List ℕ) (n m : ℕ)
    → has n (if c then ns ++ m ∷ [] else ns) ≡ (has n ns || (c && (n == m)))
has-extended true ns n m = has-append n m ns
has-extended false ns n m = ground arith

has-step :
    (s : BlockSet) (b : Block) (n : ℕ) (four : Bool)
    → has n (lengths_of (step s b) four) ≡ (
        has n (lengths_of s four)
        || ((not (is_blocked s.by_prefix b.prefix) && same_kind four (is4 b.prefix.ip))
            && (n == bits b.prefix)))
has-step s b n true =
    has-extended (not (is_blocked s.by_prefix b.prefix) && is4 b.prefix.ip) s.lengths4 n
      (bits b.prefix)
has-step s b n false =
    has-extended (not (is_blocked s.by_prefix b.prefix) && not (is4 b.prefix.ip)) s.lengths6 n
      (bits b.prefix)

same_kind_refl : (four : Bool) → same_kind four four ≡ true
same_kind_refl true = refl
same_kind_refl false = refl

here-listed :
    (s : BlockSet) (b : Block) → listed s b.prefix ≡ true → listed (step s b) b.prefix ≡ true
here-listed s b h =
    rw
      (
        is_blocked-put_block s.by_prefix b b.prefix,
        has-step s b (bits b.prefix) (is4 b.prefix.ip),
        same_kind_refl (is4 b.prefix.ip),
        prefix_eq_refl b.prefix,
      )
      (ground (arith, h))

step-listed :
    (s : BlockSet) (b : Block) (p : Prefix) → listed s p ≡ true → listed (step s b) p ≡ true
step-listed s b p h = elim (Bool-cases (prefix_eq b.prefix p)) [
  | inl here ↦
      subst (λ (q : Prefix). listed s q ≡ true → listed (step s b) q ≡ true)
        (prefix_eq→eq b.prefix p here) (here-listed s b) h
  | inr away ↦
      rw (is_blocked-put_block s.by_prefix b p, has-step s b (bits p) (is4 p.ip), away)
        (ground (arith, h))
]

index-listed :
    (s : BlockSet) (bs : List Block) (p : Prefix) → listed s p ≡ true → listed (index s bs) p ≡ true
unfolding index
index-listed s [] p h = h
index-listed s (b ∷ bs) p h = index-listed (step s b) bs p (step-listed s b p h)

pub or_else-none : (o : Option Block) → or_else o none ≡ o
or_else-none none = refl
or_else-none (some c) = refl

-- The map of a set has the last block on every prefix.
pub new_block_set-find_block :
    (bs : List Block) (p : Prefix) → find_block (new_block_set bs).by_prefix p ≡ latest_on bs p
unfolding new_block_set find_block
new_block_set-find_block bs p = index-find_block no_blocks bs p ∙ or_else-none (latest_on bs p)

pub lengths_of-new_block_set :
    (bs : List Block) (four : Bool)
    → lengths_of (new_block_set bs) four ≡ longest_first (lengths_of (index no_blocks bs) four)
unfolding new_block_set
lengths_of-new_block_set bs true = refl
lengths_of-new_block_set bs false = refl

first_listed : (p : Prefix) → listed no_blocks p ≡ true
unfolding find_block
first_listed p = refl

-- The lengths of a set have that of every prefix with a block.
pub new_block_set-has :
    (bs : List Block) (p : Prefix) {b : Block}
    → latest_on bs p ≡ some b
    → has (bits p) (lengths_of (new_block_set bs) (is4 p.ip)) ≡ true
new_block_set-has bs p h =
    let blocked : is_blocked (index no_blocks bs).by_prefix p ≡ true = ap is_some (
      index-find_block no_blocks bs p ∙ ap (λ (o : Option Block). or_else o (find_block [] p)) h) in
    let l : listed (index no_blocks bs) p ≡ true = index-listed no_blocks bs p (first_listed p) in
    ap (has (bits p)) (lengths_of-new_block_set bs (is4 p.ip))
    ∙ has-longest_first (bits p) (lengths_of (index no_blocks bs) (is4 p.ip))
    ∙ ground (arith, l, blocked)

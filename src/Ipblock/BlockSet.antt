-- ===== src/Ipblock/BlockSet.antt =====
-- ipblock/set.go and the Block of ipblock/ipblock.go. A time is its nanoseconds since the zero time,
-- without its location; a map by prefix is the list of its blocks, each under its own prefix, in the
-- order in which range meets them.
pub mod Lengths
pub mod Index
pub mod Narrowest
use blue.Prelude.{
  ℕ, ltb, leb, ◌==◌, Text, Bool, true, false, not, ◌&&◌, ◌||◌, List, [], ◌∷◌, ◌++◌, Option, none,
  some, stable_sort, if◌then◌else◌,
}
use blue.Ipblock.{Result, ok, err, ◌>>=◌, ◌>>◌, refuse, would_expire}
use blue.Ipblock.Address.{
  Addr, Prefix, bits, is4, masked, prefix_from, prefix_eq, addr_eq, addr_before, canonical,
}

pub record Block : Type 0 where
  pub prefix : Prefix
  pub reason : Text
  pub blocked_by : Text
  pub blocked_at : ℕ
  pub expires_at : ℕ

-- active
abbrev pub active : Block → ℕ → Bool
active b now = (b.expires_at == 0) || ltb now b.expires_at

-- prepare
unfoldable pub prepare : Block → ℕ → Result Block
prepare b now = do
  p ← canonical b.prefix
  refuse (not (b.expires_at == 0) && not (ltb now b.expires_at)) would_expire
  ok (record b { prefix = p; blocked_at = (if b.blocked_at == 0 then now else b.blocked_at) })

-- A map from prefixes to blocks
unfoldable pub find_block : List Block → Prefix → Option Block
find_block [] p = none
find_block (b ∷ bs) p = if prefix_eq b.prefix p then some b else find_block bs p

unfoldable pub put_block : List Block → Block → List Block
put_block [] b = b ∷ []
put_block (c ∷ bs) b =
    let rest = put_block bs b in if prefix_eq c.prefix b.prefix then b ∷ bs else c ∷ rest

unfoldable pub remove_block : List Block → Prefix → List Block
remove_block [] p = []
remove_block (b ∷ bs) p =
    let rest = remove_block bs p in if prefix_eq b.prefix p then rest else b ∷ rest

-- blockSet
pub record BlockSet : Type 0 where
  pub by_prefix : List Block
  pub lengths4 : List ℕ
  pub lengths6 : List ℕ

abbrev pub is_some : Option Block → Bool
is_some none = false
is_some (some b) = true

abbrev pub is_blocked : List Block → Prefix → Bool
is_blocked bs p = is_some (find_block bs p)

-- The body of the loop of newBlockSet.
abbrev pub step : BlockSet → Block → BlockSet
step s b =
    let known = is_blocked s.by_prefix b.prefix in
    record {
      by_prefix = put_block s.by_prefix b;
      lengths4 =
          (if not known && is4 b.prefix.ip then s.lengths4 ++ bits b.prefix ∷ [] else s.lengths4);
      lengths6 =
          (if not known && not (is4 b.prefix.ip)
            then s.lengths6 ++ bits b.prefix ∷ []
            else s.lengths6);
    }

-- The loop of newBlockSet over the blocks.
unfoldable pub index : BlockSet → List Block → BlockSet
index s [] = s
index s (b ∷ bs) = index (step s b) bs

abbrev pub no_blocks : BlockSet
no_blocks = record { by_prefix = []; lengths4 = []; lengths6 = [] }

-- slices.Compact
unfoldable pub compact : List ℕ → List ℕ
compact [] = []
compact (m ∷ []) = m ∷ []
compact (m ∷ n ∷ ns) = let rest = compact (n ∷ ns) in if m == n then rest else m ∷ rest

-- slices.Reverse
unfoldable pub reverse_onto : List ℕ → List ℕ → List ℕ
reverse_onto acc [] = acc
reverse_onto acc (n ∷ ns) = reverse_onto (n ∷ acc) ns

abbrev pub longest_first : List ℕ → List ℕ
longest_first ns = reverse_onto [] (compact (stable_sort ltb ns))

-- newBlockSet
unfoldable pub new_block_set : List Block → BlockSet
new_block_set blocks =
    let s = index no_blocks blocks in
    record {
      by_prefix = s.by_prefix;
      lengths4 = longest_first s.lengths4;
      lengths6 = longest_first s.lengths6;
    }

-- The loop of lookup over the prefix lengths.
unfoldable pub probe : List Block → Addr → ℕ → List ℕ → Option Block
probe by_prefix a now [] = none
probe by_prefix a now (n ∷ ns) =
    let rest = probe by_prefix a now ns in
    elim (find_block by_prefix (masked (prefix_from a n))) [
      | none ↦ rest
      | some b ↦ if active b now then some b else rest
    ]

-- blockSet.lookup
unfoldable pub lookup : BlockSet → Addr → ℕ → Option Block
lookup s a now = probe s.by_prefix a now (if is4 a then s.lengths4 else s.lengths6)

abbrev pub prefix_before : Block → Block → Bool
prefix_before a b =
    addr_before a.prefix.ip b.prefix.ip
    || (not (addr_before b.prefix.ip a.prefix.ip) && ltb (bits a.prefix) (bits b.prefix))

unfoldable pub actives : ℕ → List Block → List Block
actives now [] = []
actives now (b ∷ bs) = let rest = actives now bs in if active b now then b ∷ rest else rest

-- blockSet.list
unfoldable pub list : BlockSet → ℕ → List Block
list s now = stable_sort prefix_before (actives now s.by_prefix)

-- ===== src/Ipblock/Memory.antt =====
-- ipblock/memory.go. Each call runs at the time that m.now() answers, under its lock: the calls of a
-- list are one after the other.
pub mod Maps
pub mod Refinement
pub mod Answers
use blue.Prelude.{ℕ, Bool, true, false, not, List, [], Option, none, some, if◌then◌else◌}
use blue.Ipblock.{Result, ok, err, ◌>>=◌, ◌>>◌, refuse, not_blocked}
use blue.Ipblock.Address.{Addr, Prefix, canonical, canonical_addr}
use blue.Ipblock.BlockSet.{
  Block, BlockSet, active, prepare, find_block, put_block, remove_block, new_block_set, lookup,
  list,
}

pub record MemoryList : Type 0 where
  pub blocks : List Block
  pub set : BlockSet

-- reindex, after blocks has changed
abbrev pub reindexed : List Block → MemoryList
reindexed blocks = record { blocks = blocks; set = new_block_set blocks }

-- newMemoryList
abbrev pub new_memory_list : MemoryList
new_memory_list = reindexed []

-- memoryList.Block
unfoldable pub block : ℕ → MemoryList → Block → Result MemoryList
block now m b = prepare b now >>= λ b. ok (reindexed (put_block m.blocks b))

abbrev pub unblock_found : ℕ → MemoryList → Prefix → Option Block → Result (Unit {0}) × MemoryList
unblock_found now m p none = (err not_blocked, m)
unblock_found now m p (some b) =
    (refuse (not (active b now)) not_blocked, reindexed (remove_block m.blocks p))

-- memoryList.Unblock: a lapsed block is deleted, and reported as none.
unfoldable pub unblock : ℕ → MemoryList → Prefix → Result (Unit {0}) × MemoryList
unblock now m p = elim (canonical p) [
  | ok q ↦ unblock_found now m q (find_block m.blocks q)
  | err e ↦ (err e, m)
]

-- memoryList.Check
unfoldable pub check : ℕ → MemoryList → Addr → Result (Option Block)
check now m addr = canonical_addr addr >>= λ a. ok (lookup m.set a now)

-- memoryList.List
unfoldable pub list_blocks : ℕ → MemoryList → List Block
list_blocks now m = list m.set now

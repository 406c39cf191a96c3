-- ===== src/Ipblock/Cache.antt =====
-- ipblock/cache.go, as the steps that its lock keeps apart: a call of current up to where it may wait, the
-- end of a load, and the end of a call that waited. The reader behind the cache is a parameter: what its
-- List returns is an argument. A channel that is closed is a load that has ended.
pub mod Loads
pub mod Listing
pub mod Copies
use blue.Prelude.{
  ℕ, ◌-◌, ◌^◌, leb, Bool, true, false, not, ◌&&◌, List, Option, none, some, if◌then◌else◌,
}
use blue.Ipblock.{Error, Result, ok, err, ◌>>=◌}
use blue.Ipblock.Address.{Addr, canonical_addr}
use blue.Ipblock.BlockSet.{Block, BlockSet, new_block_set, lookup, list}

pub record Cache : Type 0 where
  pub set : Option BlockSet
  pub error : Option Error
  pub attempted : ℕ
  pub loading : Bool

-- newCache
abbrev pub new_cache : Cache
new_cache = record { set = none; error = none; attempted = 0; loading = false }

abbrev pub max_duration : ℕ
max_duration = 2 ^ 63 - 1

-- Time.Sub, which stops at the longest Duration; where the first time is the earlier it is not positive.
abbrev pub sub : ℕ → ℕ → ℕ
sub now since = if leb (now - since) max_duration then now - since else max_duration

-- What current returns, or that it waits. A copy may be missing without an error only in what the code
-- could write.
pub data Current : Type 0 where
  copy : BlockSet → Current
  failure : Option Error → Current
  waits : Current

abbrev pub is_due : ℕ → ℕ → Cache → Bool
is_due ttl now c = not c.loading && leb ttl (sub now c.attempted)

-- The start of a load, where one is due.
abbrev pub begun : ℕ → ℕ → ℕ → Cache → Cache
begun ttl now later c =
    if is_due ttl now c then record c { loading = true; attempted = later } else c

abbrev pub answer : Option BlockSet → Bool → Option Error → Current
answer (some s) loading error = copy s
answer none true error = waits
answer none false error = failure error

-- cache.current up to where it may wait; the clock is read twice.
unfoldable pub current : ℕ → ℕ → ℕ → Cache → Current × Cache
current ttl now later c = let d = begun ttl now later c in (answer d.set d.loading d.error, d)

-- cache.current after the load that it waited for has ended, or the context has.
unfoldable pub awaited : Bool → Cache → Current
awaited done c = if done then failure (some Error.cancelled) else answer c.set false c.error

-- cache.load, with what the source lists.
unfoldable pub load : Result (List Block) → Cache → Cache
load (ok blocks) c = record c { loading = false; set = some (new_block_set blocks); error = none }
load (err e) c = record c { loading = false; error = some e }

-- cache.Check and cache.List, with the copy or the error that current returned.
unfoldable pub check : ℕ → Result BlockSet → Addr → Result (Option Block)
check now copied addr = canonical_addr addr >>= λ a. copied >>= λ s. ok (lookup s a now)

unfoldable pub list_blocks : ℕ → Result BlockSet → Result (List Block)
list_blocks now copied = copied >>= λ s. ok (list s now)

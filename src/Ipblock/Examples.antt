-- ===== src/Ipblock/Examples.antt =====
-- Runs of the package ipblock, and its theorems at concrete inputs.
use blue.Prelude.{
  ◌+◌, ◌*◌, ◌^◌, ◌≡◌, refl, text, true, false, List, [], ◌∷◌, Option, none, some, stable_sort,
  insert_sorted, arith,
}
use blue.Ipblock.{Result, ok, err, source_error}
use blue.Ipblock.Address.{Addr, ip4, ip6, masked, canonical, canonical_addr, prefix_eq}
use blue.Ipblock.Covering.{IsCanonical}
use blue.Ipblock.BlockSet.{
  Block, prepare, find_block, put_block, new_block_set, index, compact, reverse_onto, probe, lookup,
  list,
}
use blue.Ipblock.Memory.{new_memory_list, block, unblock, check}
use blue.Ipblock.Memory.Refinement.{Command, block_at, unblock_at, obey, obey_all, promise_all}
use blue.Ipblock.Memory.Answers.{Answers, check-Answers}
use blue.Ipblock.Cache.{Cache, Current, new_cache, current, awaited, load}
use blue.Ipblock.Cache.Loads.{Steps, stays, moves, call, loaded, is_answered, current_answers}
use blue.Ipblock.Cache.Copies.{lookup-list}

-- 10.0.0.0/8, written with an address in it, and 10.1.0.0/16, until the time 100.
abbrev ten : Block
ten = record {
  prefix = record { ip = ip4 (10 * 2 ^ 24 + 5); bits_plus_one = 9 };
  reason = text "scans";
  blocked_by = text "ann";
  blocked_at = 0;
  expires_at = 0;
}

abbrev ten_one : Block
ten_one = record ten {
  prefix = record { ip = ip4 (10 * 2 ^ 24 + 2 ^ 16); bits_plus_one = 17 };
  blocked_at = 7;
  expires_at = 100;
}

abbrev ten_kept : Block
ten_kept = record ten {
  prefix = record { ip = ip4 (10 * 2 ^ 24); bits_plus_one = 9 };
  blocked_at = 6;
}

abbrev changes : List Command
changes =
    block_at 6 ten
    ∷ block_at 7 ten_one
    ∷ unblock_at 8 (record { ip = ip4 0; bits_plus_one = 1 })
    ∷ []

-- 10.1.2.3, mapped into IPv6 and with a zone.
abbrev here : Addr
here = ip4 (10 * 2 ^ 24 + 2 ^ 16 + 515)

abbrev mapped : Addr
mapped = ip6 (65535 * 2 ^ 32 + 10 * 2 ^ 24 + 2 ^ 16 + 515) (text "eth0")

canonical_addr-mapped : canonical_addr mapped ≡ ok here
unfolding canonical_addr
canonical_addr-mapped = refl

check-narrow : check 50 (obey_all new_memory_list changes) mapped ≡ ok (some ten_one)
unfolding check obey_all obey block unblock prepare canonical masked put_block find_block prefix_eq
    new_block_set index compact reverse_onto stable_sort insert_sorted lookup probe canonical_addr
check-narrow = refl

check-wide : check 100 (obey_all new_memory_list changes) mapped ≡ ok (some ten_kept)
unfolding check obey_all obey block unblock prepare canonical masked put_block find_block prefix_eq
    new_block_set index compact reverse_onto stable_sort insert_sorted lookup probe canonical_addr
check-wide = refl

check-Answers_example :
    (o : Option Block) × (check 50 (obey_all new_memory_list changes) mapped ≡ ok o)
    × Answers (promise_all (λ p. none) changes) here 50 o
check-Answers_example = check-Answers changes 50 mapped here canonical_addr-mapped

ten-IsCanonical : IsCanonical ten_kept.prefix
ten-IsCanonical = record { valid = refl; own = refl }

ten_one-IsCanonical : IsCanonical ten_one.prefix
ten_one-IsCanonical = record { valid = refl; own = refl }

lookup-list_example :
    lookup (new_block_set (list (new_block_set (ten_kept ∷ ten_one ∷ [])) 20)) here 100
    ≡ lookup (new_block_set (ten_kept ∷ ten_one ∷ [])) here 100
lookup-list_example =
    lookup-list (ten_kept ∷ ten_one ∷ []) here 20 100 (ten-IsCanonical, (ten_one-IsCanonical, tt))
      refl (omega arith)

-- A cache whose first load fails and whose second one gives a copy.
abbrev down : Result (List Block)
down = err (source_error (text "unavailable"))

abbrev failed : Cache
failed = record {
  set = none;
  error = some (source_error (text "unavailable"));
  attempted = 1001;
  loading = false;
}

first_load : Steps 60 new_cache (load down (current 60 1000 1001 new_cache).1)
unfolding current
first_load = moves (moves stays (call 1000 1001 (omega arith))) (loaded down refl)

current_answers_example :
    (is_answered (current 60 1070 1071 (load down (current 60 1000 1001 new_cache).1)).0 ≡ true)
    × (is_answered (awaited false (load down new_cache)) ≡ true)
current_answers_example =
    current_answers 60 1070 1071 (load down (current 60 1000 1001 new_cache).1) new_cache
      (load down new_cache) down false (omega arith) (omega arith) first_load stays

-- The copy of a load that succeeded, and the error of one that failed before.
current-failure :
    (current 60 1030 1031 failed).0 ≡ Current.failure (some (source_error (text "unavailable")))
unfolding current
current-failure = refl

current-waits : (current 60 1070 1071 failed).0 ≡ Current.waits
unfolding current
current-waits = refl

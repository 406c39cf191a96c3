-- ===== src/Ipblock/DocumentList/Examples.antt =====
-- A run of the list over documents, with texts of prefixes made for it, and the theorem at that run.
use blue.Prelude.{
  ℕ, ◌+◌, ◌-◌, ◌^◌, ◌*◌, ◌==◌, Text, text, List, [], ◌∷◌, Option, none, some, if◌then◌else◌,
}
use blue.Ipblock.Address.{Addr, no_addr, ip4, ip6, Prefix}
use blue.Ipblock.BlockSet.{Block}
use blue.Ipblock.Memory.Refinement.{Command, block_at}

-- An address as one character beyond the letters, a slash, and the length.
abbrev print_addr : Addr → ℕ → Text
print_addr no_addr n = []
print_addr (ip4 v) n = 52 ∷ (v + 96) ∷ 47 ∷ (n + 96) ∷ []
print_addr (ip6 v z) n = 54 ∷ (v + 96) ∷ 47 ∷ (n + 96) ∷ []

abbrev print_prefix : Prefix → Text
print_prefix p = print_addr p.ip p.bits_plus_one

abbrev parse_prefix : Text → Option Prefix
parse_prefix (kind ∷ v ∷ slash ∷ n ∷ []) =
    some (record {
      ip = (if kind == 52 then ip4 (v - 96) else ip6 (v - 96) []);
      bits_plus_one = n - 96;
    })
parse_prefix _ = none

abbrev ten : Block
ten = record {
  prefix = record { ip = ip4 (10 * 2 ^ 24); bits_plus_one = 9 };
  reason = text "scans";
  blocked_by = text "ann";
  blocked_at = 0;
  expires_at = 100;
}

abbrev changes : List Command
changes = block_at 6 ten ∷ block_at 7 (record ten { expires_at = 0 }) ∷ []

-- ===== src/Ipblock/Address.antt =====
-- What ipblock/set.go uses of net/netip, and its canonical forms. An address is a number of 32 or of
-- 128 bits; the zero Addr is invalid.
use blue.Prelude.{
  ℕ, suc, ◌-◌, ◌*◌, ◌/◌, ◌%◌, ◌^◌, ltb, leb, ◌==◌, Text, text_eq, text_lt, Bool, true, false, not,
  ◌&&◌, ◌||◌, [], ◌∷◌, if◌then◌else◌,
}
use blue.Ipblock.{Result, ok, err, invalid_prefix, invalid_address}

pub data Addr : Type 0 where
  no_addr : Addr
  ip4 : ℕ → Addr
  ip6 : ℕ → Text → Addr

-- netip.Prefix: an address without a zone, and the number of its bits plus one, which is 0 where it is
-- invalid.
pub record Prefix : Type 0 where
  pub ip : Addr
  pub bits_plus_one : ℕ

abbrev pub bits : Prefix → ℕ
bits p = p.bits_plus_one - 1

abbrev pub bit_len : Addr → ℕ
bit_len no_addr = 0
bit_len (ip4 v) = 32
bit_len (ip6 v zone) = 128

abbrev pub is_valid_addr : Addr → Bool
is_valid_addr no_addr = false
is_valid_addr _ = true

abbrev pub is4 : Addr → Bool
is4 (ip4 v) = true
is4 _ = false

-- Addr.Is4In6
abbrev pub is4_in_6 : Addr → Bool
is4_in_6 (ip6 v zone) = v / 2 ^ 32 == 65535
is4_in_6 _ = false

-- Addr.Unmap
abbrev pub unmap : Addr → Addr
unmap (ip6 v zone) = if v / 2 ^ 32 == 65535 then ip4 (v % 2 ^ 32) else ip6 v zone
unmap a = a

-- Addr.WithZone("")
abbrev pub without_zone : Addr → Addr
without_zone (ip6 v zone) = ip6 v []
without_zone a = a

-- Prefix.IsValid
abbrev pub is_valid : Prefix → Bool
is_valid p = ltb 0 p.bits_plus_one && is_valid_addr p.ip && leb (bits p) (bit_len p.ip)

-- netip.PrefixFrom
abbrev pub prefix_from : Addr → ℕ → Prefix
prefix_from a n = record {
  ip = without_zone a;
  bits_plus_one = (if is_valid_addr a && leb n (bit_len a) then suc n else 0);
}

-- A number with all but its bits from k on set to 0.
abbrev pub high : ℕ → ℕ → ℕ
high v k = (v / 2 ^ k) * 2 ^ k

abbrev pub mask : Addr → ℕ → Addr
mask no_addr n = no_addr
mask (ip4 v) n = ip4 (high v (32 - n))
mask (ip6 v zone) n = ip6 (high v (128 - n)) []

abbrev pub no_prefix : Prefix
no_prefix = record { ip = no_addr; bits_plus_one = 0 }

-- Prefix.Masked
unfoldable pub masked : Prefix → Prefix
masked p =
    if is_valid p
    then record { ip = mask p.ip (bits p); bits_plus_one = p.bits_plus_one }
    else no_prefix

-- Prefix.Contains
abbrev pub contains : Prefix → Addr → Bool
contains p no_addr = false
contains p (ip4 w) = elim p.ip [
  | ip4 v ↦ is_valid p && (v / 2 ^ (32 - bits p) == w / 2 ^ (32 - bits p))
  | _ ↦ false
]
contains p (ip6 w []) = elim p.ip [
  | ip6 v zone ↦ is_valid p && (v / 2 ^ (128 - bits p) == w / 2 ^ (128 - bits p))
  | _ ↦ false
]
contains p (ip6 w (c ∷ zone)) = false

abbrev pub addr_eq : Addr → Addr → Bool
addr_eq no_addr no_addr = true
addr_eq (ip4 v) (ip4 w) = v == w
addr_eq (ip6 v zone) (ip6 w zone') = (v == w) && text_eq zone zone'
addr_eq _ _ = false

-- `==` on prefixes, which are the keys of maps.
unfoldable pub prefix_eq : Prefix → Prefix → Bool
prefix_eq p q = addr_eq p.ip q.ip && (p.bits_plus_one == q.bits_plus_one)

-- Addr.Less: Compare is negative.
abbrev pub addr_before : Addr → Addr → Bool
addr_before no_addr b = is_valid_addr b
addr_before (ip4 v) (ip4 w) = ltb v w
addr_before (ip4 v) (ip6 w zone) = true
addr_before (ip4 v) no_addr = false
addr_before (ip6 v zone) (ip6 w zone') = ltb v w || ((v == w) && text_lt zone zone')
addr_before (ip6 v zone) _ = false

-- canonical
unfoldable pub canonical : Prefix → Result Prefix
canonical p =
    if not (is_valid p)
    then err invalid_prefix
    else ok (
        masked
          (if is4_in_6 p.ip && leb 96 (bits p) then prefix_from (unmap p.ip) (bits p - 96) else p))

-- canonicalAddr
unfoldable pub canonical_addr : Addr → Result Addr
canonical_addr a =
    if not (is_valid_addr a) then err invalid_address else ok (without_zone (unmap a))

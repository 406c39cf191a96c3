-- ===== src/Ipblock/Covering.antt =====
-- Canonical prefixes of ipblock/set.go, and which addresses they cover.
use blue.Prelude.{
  ℕ, suc, ◌-◌, ◌*◌, ◌/◌, ◌%◌, ◌^◌, ltb, leb, ◌==◌, ==_iff, text_eq, text_eq→eq, text_eq_refl, ◌≡◌,
  refl, sym, ap, ◌∙◌, true, false, ◌&&◌, [], ◌∷◌, Bool-cases, &&_elim, inl, inr, arith,
}
use mathlib.Core.Path.{subst}
use native.Mathlib.Nat.{one-le-pow, mul-div_cancel}
use blue.Ipblock.{ok}
use blue.Ipblock.Address.{
  Addr, no_addr, ip4, ip6, Prefix, bits, is_valid, bit_len, is_valid_addr, mask, high, masked,
  no_prefix, prefix_from, contains, addr_eq, prefix_eq, without_zone, unmap, is4_in_6, canonical,
  canonical_addr,
}

pub addr_eq→eq : (a b : Addr) → addr_eq a b ≡ true → a ≡ b
addr_eq→eq no_addr no_addr h = refl
addr_eq→eq (ip4 v) (ip4 w) h = ap ip4 ((==_iff v w).0 h)
addr_eq→eq (ip6 v y) (ip6 w z) h =
    let (e, f) = &&_elim (v == w) (text_eq y z) h in cc ((==_iff v w).0 e, text_eq→eq y z f)
addr_eq→eq no_addr (ip4 w) h = absurd (cc h)
addr_eq→eq no_addr (ip6 w z) h = absurd (cc h)
addr_eq→eq (ip4 v) no_addr h = absurd (cc h)
addr_eq→eq (ip4 v) (ip6 w z) h = absurd (cc h)
addr_eq→eq (ip6 v y) no_addr h = absurd (cc h)
addr_eq→eq (ip6 v y) (ip4 w) h = absurd (cc h)

==_refl : (n : ℕ) → (n == n) ≡ true
==_refl n = ground arith

addr_eq_refl : (a : Addr) → addr_eq a a ≡ true
addr_eq_refl no_addr = refl
addr_eq_refl (ip4 v) = ==_refl v
addr_eq_refl (ip6 v z) = rw (==_refl v, text_eq_refl z) refl

pub prefix_eq→eq : (p q : Prefix) → prefix_eq p q ≡ true → p ≡ q
unfolding prefix_eq
prefix_eq→eq p q h =
    let (e, f) = &&_elim (addr_eq p.ip q.ip) (p.bits_plus_one == q.bits_plus_one) h in
    cc (addr_eq→eq p.ip q.ip e, (==_iff p.bits_plus_one q.bits_plus_one).0 f)

pub prefix_eq_refl : (p : Prefix) → prefix_eq p p ≡ true
unfolding prefix_eq
prefix_eq_refl p = rw (addr_eq_refl p.ip, ==_refl p.bits_plus_one) refl

high-high : (v k : ℕ) → high (high v k) k ≡ high v k
high-high v k =
    ap (λ (x : ℕ). x * 2 ^ k) (mul-div_cancel (v / 2 ^ k) (one-le-pow k 2 (omega arith)))

-- A number without low bits has the same high bits as another if it is the other without its low bits.
high_same : (v w k : ℕ) → high v k ≡ v → (v / 2 ^ k == w / 2 ^ k) ≡ (v == high w k)
high_same v w k h = elim (Bool-cases (v == high w k)) [
  | inl e ↦
      let same : v / 2 ^ k ≡ w / 2 ^ k =
        ap (λ (x : ℕ). x / 2 ^ k) ((==_iff v (high w k)).0 e)
        ∙ mul-div_cancel (w / 2 ^ k) (one-le-pow k 2 (omega arith)) in
      rw (e, same) (==_refl (w / 2 ^ k))
  | inr e ↦ elim (Bool-cases (v / 2 ^ k == w / 2 ^ k)) [
    | inl d ↦ absurd (
        cc (
          e,
          (==_iff v (high w k)).1
              (sym h ∙ ap (λ (x : ℕ). x * 2 ^ k) ((==_iff (v / 2 ^ k) (w / 2 ^ k)).0 d)),
        ))
    | inr d ↦ rw (d, e) refl
  ]
]

-- A prefix as blocks are keyed.
pub record IsCanonical (p : Prefix) : Type 0 where
  pub valid : is_valid p ≡ true
  pub own : mask p.ip (bits p) ≡ p.ip

pub masked_ip :
    (p : Prefix)
    → is_valid p ≡ true
    → masked p ≡ record { ip = mask p.ip (bits p); bits_plus_one = p.bits_plus_one }
unfolding masked
masked_ip p v = rw v refl

mask-mask : (a : Addr) (n : ℕ) → mask (mask a n) n ≡ mask a n
mask-mask no_addr n = refl
mask-mask (ip4 v) n = ap ip4 (high-high v (32 - n))
mask-mask (ip6 v z) n = ap (λ (x : ℕ). ip6 x []) (high-high v (128 - n))

mask_is_valid : (a : Addr) (n : ℕ) → is_valid_addr (mask a n) ≡ is_valid_addr a
mask_is_valid no_addr n = refl
mask_is_valid (ip4 v) n = refl
mask_is_valid (ip6 v z) n = refl

mask_len : (a : Addr) (n : ℕ) → bit_len (mask a n) ≡ bit_len a
mask_len no_addr n = refl
mask_len (ip4 v) n = refl
mask_len (ip6 v z) n = refl

pub masked-IsCanonical : (p : Prefix) → is_valid p ≡ true → IsCanonical (masked p)
masked-IsCanonical p v = rw (masked_ip p v) (record {
  valid = rw (mask_is_valid p.ip (bits p), mask_len p.ip (bits p)) v;
  own = mask-mask p.ip (bits p);
})

pub IsCanonical-masked : (p : Prefix) → IsCanonical p → masked p ≡ p
IsCanonical-masked p c =
    masked_ip p c.valid
    ∙ ap (λ (a : Addr). record { ip = a; bits_plus_one = p.bits_plus_one }) c.own

pub unmapped_valid :
    (a : Addr) (n : ℕ)
    → is_valid (record { ip = a; bits_plus_one = n }) ≡ true
    → (is4_in_6 a && leb 96 (n - 1)) ≡ true
    → is_valid (prefix_from (unmap a) (n - 1 - 96)) ≡ true
unmapped_valid no_addr n v m = absurd (cc m)
unmapped_valid (ip4 w) n v m = absurd (cc m)
unmapped_valid (ip6 w z) n v m =
    let (e, f) = &&_elim (w / 2 ^ 32 == 65535) (leb 96 (n - 1)) m in rw e (ground arith)

pub canonical-IsCanonical : (p : Prefix) {q : Prefix} → canonical p ≡ ok q → IsCanonical q
unfolding canonical
canonical-IsCanonical p {q} h = elim (Bool-cases (is_valid p)) [
  | inr bad ↦ absurd (cc (rw bad at h))
  | inl good ↦ elim (Bool-cases (is4_in_6 p.ip && leb 96 (bits p))) [
    | inl mapped ↦
        let same : masked (prefix_from (unmap p.ip) (bits p - 96)) ≡ q =
          cc (rw (good, mapped) at h) in
        subst IsCanonical same (
          masked-IsCanonical (prefix_from (unmap p.ip) (bits p - 96))
            (unmapped_valid p.ip p.bits_plus_one good mapped))
    | inr other ↦
        let same : masked p ≡ q = cc (rw (good, other) at h) in
        subst IsCanonical same (masked-IsCanonical p good)
  ]
]

pub canonical_addr-no_zone : (a : Addr) {b : Addr} → canonical_addr a ≡ ok b → without_zone b ≡ b
unfolding canonical_addr
canonical_addr-no_zone no_addr h = absurd (cc h)
canonical_addr-no_zone (ip4 v) h = subst (λ (x : Addr). without_zone x ≡ x) {x = ip4 v} (cc h) refl
canonical_addr-no_zone (ip6 v z) h = elim (Bool-cases (v / 2 ^ 32 == 65535)) [
  | inl e ↦ subst (λ (x : Addr). without_zone x ≡ x) {x = ip4 (v % 2 ^ 32)} (cc (rw e at h)) refl
  | inr e ↦ subst (λ (x : Addr). without_zone x ≡ x) {x = ip6 v []} (cc (rw e at h)) refl
]

-- The prefix of a length around an address, and there is none of a length that does not fit.
pub masked-prefix_from :
    (a : Addr) (m : ℕ)
    → is_valid_addr a ≡ true
    → leb m (bit_len a) ≡ true
    → masked (prefix_from a m) ≡ record { ip = mask a m; bits_plus_one = suc m }
unfolding masked
masked-prefix_from no_addr m v f = absurd (cc v)
masked-prefix_from (ip4 w) m v f = rw f (ground (arith, f))
masked-prefix_from (ip6 w z) m v f = rw f (ground (arith, f))

pub masked-prefix_from_outside :
    (a : Addr) (m : ℕ) → leb m (bit_len a) ≡ false → masked (prefix_from a m) ≡ no_prefix
unfolding masked
masked-prefix_from_outside no_addr m f = refl
masked-prefix_from_outside (ip4 w) m f = rw f refl
masked-prefix_from_outside (ip6 w z) m f = rw f refl

pub masked-no_addr : (m : ℕ) → masked (prefix_from no_addr m) ≡ no_prefix
unfolding masked
masked-no_addr m = refl

agrees :
    (v w k n : ℕ)
    → high v k ≡ v
    → ltb 0 n ≡ true
    → (v / 2 ^ k == w / 2 ^ k) ≡ ((v == high w k) && (n == suc (n - 1)))
agrees v w k n h pos = high_same v w k h ∙ (ground (arith, pos))

covers :
    (b : Addr) (n : ℕ) (a : Addr)
    → IsCanonical (record { ip = b; bits_plus_one = n })
    → without_zone a ≡ a
    → contains (record { ip = b; bits_plus_one = n }) a
      ≡ prefix_eq (record { ip = b; bits_plus_one = n }) (masked (prefix_from a (n - 1)))
unfolding prefix_eq
covers no_addr n a c z = absurd (ground (arith, c.valid))
covers (ip4 v) n no_addr c z = rw (masked-no_addr (n - 1)) refl
covers (ip6 v y) n no_addr c z = rw (masked-no_addr (n - 1)) refl
covers (ip4 v) n (ip4 w) c z =
    let f : leb (n - 1) 32 ≡ true = ground (arith, c.valid) in
    let p : ltb 0 n ≡ true = ground (arith, c.valid) in
    rw (masked-prefix_from (ip4 w) (n - 1) refl f, c.valid)
      (agrees v w (32 - (n - 1)) n (cc c.own) p)
covers (ip4 v) n (ip6 w []) c z =
    let f : leb (n - 1) 128 ≡ true = ground (arith, c.valid) in
    rw (masked-prefix_from (ip6 w []) (n - 1) refl f) refl
covers (ip6 v y) n (ip4 w) c z = elim (Bool-cases (leb (n - 1) 32)) [
  | inl f ↦ rw (masked-prefix_from (ip4 w) (n - 1) refl f) refl
  | inr f ↦ rw (masked-prefix_from_outside (ip4 w) (n - 1) f) refl
]
covers (ip6 v y) n (ip6 w []) c z =
    let f : leb (n - 1) 128 ≡ true = ground (arith, c.valid) in
    let p : ltb 0 n ≡ true = ground (arith, c.valid) in
    rw (masked-prefix_from (ip6 w []) (n - 1) refl f, c.valid)
      let no_zone : text_eq y [] ≡ true = cc (c.own, text_eq_refl y) in
        let same = agrees v w (128 - (n - 1)) n (cc c.own) p in rw no_zone (ground (arith, same))
covers (ip4 v) n (ip6 w (d ∷ x)) c z = absurd (cc z)
covers (ip6 v y) n (ip6 w (d ∷ x)) c z = absurd (cc z)

-- A canonical prefix covers an address without a zone if it is the prefix of its own length around it.
pub contains-exact :
    (p : Prefix) (a : Addr)
    → IsCanonical p
    → without_zone a ≡ a
    → contains p a ≡ prefix_eq p (masked (prefix_from a (bits p)))
contains-exact p a c z = covers p.ip p.bits_plus_one a c z

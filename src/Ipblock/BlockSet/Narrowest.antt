-- ===== src/Ipblock/BlockSet/Narrowest.antt =====
-- The lookup of ipblock/set.go: the narrowest block that is in force and covers the address.
use blue.Prelude.{
  ℕ, suc, ◌≤◌, leb, ◌==◌, ==_iff, ◌≡◌, refl, sym, ap, ◌∙◌, Bool, true, false, List, [], ◌∷◌, All,
  Option, none, some, Bool-cases, Option-cases, inl, inr, arith,
}
use mathlib.Core.Path.{subst}
use blue.Ipblock.Address.{
  Addr, no_addr, ip4, ip6, Prefix, bits, is_valid, is4, mask, masked, prefix_from, prefix_eq,
  contains, without_zone,
}
use blue.Ipblock.Covering.{
  IsCanonical, prefix_eq→eq, prefix_eq_refl, contains-exact, masked-no_addr, masked-prefix_from,
  masked-prefix_from_outside,
}
use blue.Ipblock.BlockSet.{Block, active, new_block_set, probe, lookup}
use blue.Ipblock.BlockSet.Lengths.{has, Descending, longest_first-Descending}
use blue.Ipblock.BlockSet.Index.{
  latest_on, lengths_of, lengths_of-new_block_set, new_block_set-find_block, new_block_set-has,
}

pub latest_on-own :
    (bs : List Block) (p : Prefix) {b : Block}
    → latest_on bs p ≡ some b
    → prefix_eq b.prefix p ≡ true
unfolding latest_on
latest_on-own [] p h = absurd (cc h)
latest_on-own (c ∷ bs) p {b} h = elim (Option-cases (latest_on bs p)) [
  | inr (d, e) ↦ latest_on-own bs p (e ∙ (rw e at h))
  | inl e ↦ elim (Bool-cases (prefix_eq c.prefix p)) [
    | inl same ↦
        subst (λ (x : Block). prefix_eq x.prefix p ≡ true) {x = c} {y = b} (cc (rw (e, same) at h))
          same
    | inr other ↦ absurd (cc (rw (e, other) at h))
  ]
]

pub latest_on-All :
    (P : Block → Type 0) (bs : List Block) (p : Prefix) {b : Block}
    → All P bs
    → latest_on bs p ≡ some b
    → P b
unfolding latest_on
latest_on-All P [] p a h = absurd (cc h)
latest_on-All P (c ∷ bs) p {b} a h = elim (Option-cases (latest_on bs p)) [
  | inr (d, e) ↦ latest_on-All P bs p a.1 (e ∙ (rw e at h))
  | inl e ↦ elim (Bool-cases (prefix_eq c.prefix p)) [
    | inl same ↦ subst P (cc (rw (e, same) at h)) a.0
    | inr other ↦ absurd (cc (rw (e, other) at h))
  ]
]

has-All : (n m : ℕ) (ns : List ℕ) → has n ns ≡ true → All (λ k. k ≤ m) ns → n ≤ m
has-All n m [] h a = absurd (cc h)
has-All n m (k ∷ ns) h a = elim (Bool-cases (n == k)) [
  | inl e ↦ omega (arith, (==_iff n k).0 e, a.0)
  | inr e ↦ has-All n m ns (rw e at h) a.1
]

≤_self : (n : ℕ) → n ≤ n
≤_self n = omega arith

-- The prefix of a length around an address, where it is valid.
around :
    (a : Addr) (m : ℕ)
    → is_valid (masked (prefix_from a m)) ≡ true
    → masked (prefix_from a m) ≡ record { ip = mask a m; bits_plus_one = suc m }
around no_addr m v = absurd (cc (rw (masked-no_addr m) at v))
around (ip4 w) m v = elim (Bool-cases (leb m 32)) [
  | inr out ↦ absurd (cc (rw (masked-prefix_from_outside (ip4 w) m out) at v))
  | inl fits ↦ masked-prefix_from (ip4 w) m refl fits
]
around (ip6 w z) m v = elim (Bool-cases (leb m 128)) [
  | inr out ↦ absurd (cc (rw (masked-prefix_from_outside (ip6 w z) m out) at v))
  | inl fits ↦ masked-prefix_from (ip6 w z) m refl fits
]

is4-mask : (a : Addr) (m : ℕ) → is4 (mask a m) ≡ is4 a
is4-mask no_addr m = refl
is4-mask (ip4 v) m = refl
is4-mask (ip6 v z) m = refl

-- A block that lookup may return.
pub record Found (bs : List Block) (a : Addr) (now : ℕ) (b : Block) : Type 0 where
  pub held : latest_on bs b.prefix ≡ some b
  pub on : active b now ≡ true
  pub covering : contains b.prefix a ≡ true

-- What is in force under the prefix of a length around an address covers it.
around-Found :
    (bs : List Block) (a : Addr) (now m : ℕ) (b : Block)
    → All (λ c. IsCanonical c.prefix) bs
    → without_zone a ≡ a
    → latest_on bs (masked (prefix_from a m)) ≡ some b
    → active b now ≡ true
    → Found bs a now b × (bits b.prefix ≡ m)
around-Found bs a now m b all z h on =
    let q = masked (prefix_from a m) in
    let own : b.prefix ≡ q = prefix_eq→eq b.prefix q (latest_on-own bs q h) in
    let c : IsCanonical b.prefix = latest_on-All (λ (x : Block). IsCanonical x.prefix) bs q all h in
    let shape = around a m (ap is_valid (sym own) ∙ c.valid) in
    let long : bits b.prefix ≡ m = ap bits (own ∙ shape) ∙ (omega arith) in
    (
      record {
        held = ap (latest_on bs) own ∙ h;
        on = on;
        covering =
            contains-exact b.prefix a c z
            ∙ ap (λ (k : ℕ). prefix_eq b.prefix (masked (prefix_from a k))) long
            ∙ ap (prefix_eq b.prefix) (sym own)
            ∙ prefix_eq_refl b.prefix;
      },
      long,
    )

abbrev live_in : ℕ → Option Block → Bool
live_in now none = false
live_in now (some b) = active b now

-- Two lengths differ if what is on their prefixes differs in being in force.
length_differs :
    (bs : List Block) (a : Addr) (now n m : ℕ) (o : Option Block) (c : Block)
    → latest_on bs (masked (prefix_from a m)) ≡ o
    → latest_on bs (masked (prefix_from a n)) ≡ some c
    → live_in now o ≡ false
    → active c now ≡ true
    → (n == m) ≡ false
length_differs bs a now n m o c e at_n dead on = elim (Bool-cases (n == m)) [
  | inr other ↦ other
  | inl same ↦
      let both : o ≡ some c =
        sym e
        ∙ sym (ap (λ (k : ℕ). latest_on bs (masked (prefix_from a k))) ((==_iff n m).0 same))
        ∙ at_n in
      absurd (cc (ap (live_in now) both, dead, on))
]

probe-narrowest :
    (bs : List Block) (a : Addr) (now n : ℕ) (c : Block) (ns : List ℕ)
    → All (λ x. IsCanonical x.prefix) bs
    → without_zone a ≡ a
    → Descending ns
    → has n ns ≡ true
    → latest_on bs (masked (prefix_from a n)) ≡ some c
    → active c now ≡ true
    → (b : Block) × (probe (new_block_set bs).by_prefix a now ns ≡ some b)
      × Found bs a now b
      × (leb n (bits b.prefix) ≡ true)
unfolding probe
probe-narrowest bs a now n c [] all z d h at_n on = absurd (cc h)
probe-narrowest bs a now n c (m ∷ ns) all z d h at_n on =
    let q = masked (prefix_from a m) in
    let found = new_block_set-find_block bs q in
    let later : (n == m) ≡ false → _ =
      λ other. probe-narrowest bs a now n c ns all z d.1 (rw other at h) at_n on in
    elim (Option-cases (latest_on bs q)) [
      | inl e ↦ rw (found, e, probe) (later (length_differs bs a now n m none c e at_n refl on))
      | inr (b, e) ↦ elim (Bool-cases (active b now)) [
        | inl live ↦
            let (f, long) = around-Found bs a now m b all z e live in
            rw (found, e, live, probe)
              (b, refl, f, ground (arith, long, has-All n m (m ∷ ns) h (≤_self m, d.0)))
        | inr lapsed ↦
            rw (found, e, lapsed, probe)
              (later (length_differs bs a now n m (some b) c e at_n lapsed on))
      ]
    ]

-- In a set of blocks on canonical prefixes, where the last block on some prefix is in force and covers an
-- address without a zone, lookup finds the last block on a prefix, which is in force, covers the address
-- and is at least as narrow.
pub lookup_narrowest :
    (bs : List Block) (a : Addr) (now : ℕ) (p : Prefix) (c : Block)
    → All (λ x. IsCanonical x.prefix) bs
    → without_zone a ≡ a
    → latest_on bs p ≡ some c
    → active c now ≡ true
    → contains p a ≡ true
    → (b : Block) × (lookup (new_block_set bs) a now ≡ some b)
      × Found bs a now b
      × (leb (bits p) (bits b.prefix) ≡ true)
unfolding lookup
lookup_narrowest bs a now p c all z h on covering =
    let own : c.prefix ≡ p = prefix_eq→eq c.prefix p (latest_on-own bs p h) in
    let can : IsCanonical p =
      subst IsCanonical own (latest_on-All (λ (x : Block). IsCanonical x.prefix) bs p all h) in
    let q = masked (prefix_from a (bits p)) in
    let same : p ≡ q = prefix_eq→eq p q (sym (contains-exact p a can z) ∙ covering) in
    let shape = around a (bits p) (ap is_valid (sym same) ∙ can.valid) in
    let kind : is4 p.ip ≡ is4 a =
      ap (λ (x : Prefix). is4 x.ip) (same ∙ shape) ∙ is4-mask a (bits p) in
    let lengths = lengths_of (new_block_set bs) (is4 a) in
    probe-narrowest bs a now (bits p) c lengths all z
      (subst Descending (sym (lengths_of-new_block_set bs (is4 a))) (longest_first-Descending _))
      (ap (λ (k : Bool). has (bits p) (lengths_of (new_block_set bs) k)) (sym kind)
        ∙ new_block_set-has bs p h)
      (ap (latest_on bs) (sym same) ∙ h) on

probe-Found :
    (bs : List Block) (a : Addr) (now : ℕ) (ns : List ℕ) (b : Block)
    → All (λ x. IsCanonical x.prefix) bs
    → without_zone a ≡ a
    → probe (new_block_set bs).by_prefix a now ns ≡ some b
    → Found bs a now b
unfolding probe
probe-Found bs a now [] b all z h = absurd (cc h)
probe-Found bs a now (m ∷ ns) b all z h =
    let q = masked (prefix_from a m) in
    let found = new_block_set-find_block bs q in
    elim (Option-cases (latest_on bs q)) [
      | inl e ↦ probe-Found bs a now ns b all z (rw (found, e, probe) at h)
      | inr (c, e) ↦ elim (Bool-cases (active c now)) [
        | inl live ↦
            subst (Found bs a now) (cc (rw (found, e, live, probe) at h))
              (around-Found bs a now m c all z e live).0
        | inr lapsed ↦ probe-Found bs a now ns b all z (rw (found, e, lapsed, probe) at h)
      ]
    ]

-- What lookup returns is the last block on its prefix, in force, and covers the address.
pub lookup-Found :
    (bs : List Block) (a : Addr) (now : ℕ) (b : Block)
    → All (λ x. IsCanonical x.prefix) bs
    → without_zone a ≡ a
    → lookup (new_block_set bs) a now ≡ some b
    → Found bs a now b
unfolding lookup
lookup-Found bs a now b all z h =
    probe-Found bs a now (lengths_of (new_block_set bs) (is4 a)) b all z h

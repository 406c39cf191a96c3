-- ===== src/Ipblock/DocumentList/Canonical.antt =====
-- IDs of ipblock/document.go determine the text of a prefix, and a canonical prefix is its own canonical
-- form.
use blue.Prelude.{
  ℕ, zero, suc, ◌%◌, ◌+◌, ◌-◌, ◌*◌, ◌/◌, ◌^◌, ◌≤◌, ◌==◌, ==_iff, leb, Text, ◌≡◌, refl, sym, ap, ◌∙◌,
  Bool, true, false, ◌&&◌, [], ◌∷◌, Bool-cases, &&_elim, inl, inr, if◌then◌else◌, arith,
}
use mathlib.Core.Path.{subst}
use native.Mathlib.Nat.{
  one-le-pow, mul-div-mul_right, div-div-eq-div-mul, mul_comm, mul_assoc, pow-suc, pow-zero,
}
use blue.Ipblock.{ok}
use blue.Ipblock.Address.{
  Addr, no_addr, ip4, ip6, Prefix, bits, is_valid, is4_in_6, unmap, mask, high, masked, prefix_from,
  canonical, without_zone,
}
use blue.Ipblock.Covering.{
  IsCanonical, IsCanonical-masked, masked_ip, masked-IsCanonical, unmapped_valid,
}
use blue.Ipblock.DocumentList.{replace_slash}

-- The first "_" put back.
pub restore : Text → Text
restore [] = []
restore (c ∷ cs) = let rest = restore cs in if c == 95 then 47 ∷ cs else c ∷ rest

abbrev pub has_underscore : Text → Bool
has_underscore [] = false
has_underscore (c ∷ cs) = if c == 95 then true else has_underscore cs

pub restore-replace_slash : (t : Text) → has_underscore t ≡ false → restore (replace_slash t) ≡ t
unfolding restore replace_slash
restore-replace_slash [] h = refl
restore-replace_slash (c ∷ cs) h = elim (Bool-cases (c == 47)) [
  | inl slash ↦ rw slash (ap (λ (x : ℕ). x ∷ cs) (sym ((==_iff c 47).0 slash)))
  | inr other ↦ elim (Bool-cases (c == 95)) [
    | inl score ↦ absurd (cc (rw score at h))
    | inr plain ↦
        rw (other, plain) (ap (λ (t : Text). c ∷ t) (restore-replace_slash cs (rw plain at h)))
  ]
]

-- The canonical form of a canonical form.
zero_plus : (b : ℕ) → b ≡ 0 + b
zero_plus b = omega arith

suc_plus : (a b : ℕ) → suc (a + b) ≡ suc a + b
suc_plus a b = omega arith

two_pow_add : (a b : ℕ) → 2 ^ a * 2 ^ b ≡ 2 ^ (a + b)
two_pow_add zero b =
    ap (λ (x : ℕ). x * 2 ^ b) (pow-zero 2) ∙ (omega arith) ∙ ap (λ (x : ℕ). 2 ^ x) (zero_plus b)
two_pow_add (suc a) b =
    ap (λ (x : ℕ). x * 2 ^ b) (pow-suc 2 a ∙ mul_comm (2 ^ a) 2)
    ∙ mul_assoc 2 (2 ^ a) (2 ^ b)
    ∙ ap (λ (x : ℕ). 2 * x) (two_pow_add a b)
    ∙ mul_comm 2 (2 ^ (a + b))
    ∙ sym (pow-suc 2 (a + b))
    ∙ ap (λ (x : ℕ). 2 ^ x) (suc_plus a b)

high_top : (v n : ℕ) → 96 ≤ n → high v (128 - n) / 2 ^ 32 ≡ v / 2 ^ 32
high_top v n h =
    let k = 128 - n in
    let fill : 32 - k + k ≡ 32 = omega (arith, h) in
    let whole : 2 ^ (32 - k) * 2 ^ k ≡ 2 ^ 32 =
      two_pow_add (32 - k) k ∙ ap (λ (x : ℕ). 2 ^ x) fill in
    ap (λ (d : ℕ). high v k / d) (sym whole)
    ∙ mul-div-mul_right (v / 2 ^ k) (2 ^ (32 - k)) (one-le-pow k 2 (omega arith))
    ∙ div-div-eq-div-mul v (2 ^ k) (2 ^ (32 - k))
    ∙ ap (λ (d : ℕ). v / d) (mul_comm (2 ^ k) (2 ^ (32 - k)) ∙ whole)

mask-is4_in_6 : (a : Addr) (n : ℕ) → 96 ≤ n → is4_in_6 (mask a n) ≡ is4_in_6 a
mask-is4_in_6 no_addr n h = refl
mask-is4_in_6 (ip4 v) n h = refl
mask-is4_in_6 (ip6 v z) n h = ap (λ (x : ℕ). x == 65535) (high_top v n h)

unmapped : (a : Addr) → is4_in_6 a ≡ true → (x : ℕ) × (unmap a ≡ ip4 x)
unmapped no_addr h = absurd (cc h)
unmapped (ip4 v) h = absurd (cc h)
unmapped (ip6 v z) h = rw h (v % 2 ^ 32, refl)

fixed :
    (q : Prefix) → IsCanonical q → (is4_in_6 q.ip && leb 96 (bits q)) ≡ false → canonical q ≡ ok q
unfolding canonical
fixed q c h = rw (c.valid, h) (ap ok (IsCanonical-masked q c))

still_unmapped :
    (a : Addr) (n : ℕ)
    → (is4_in_6 a && leb 96 n) ≡ false
    → (is4_in_6 (mask a n) && leb 96 n) ≡ false
still_unmapped a n h = elim (Bool-cases (leb 96 n)) [
  | inl long ↦ rw (mask-is4_in_6 a n (ground (arith, long))) h
  | inr short ↦ rw short (ground arith)
]

pub canonical-canonical : (p : Prefix) {q : Prefix} → canonical p ≡ ok q → canonical q ≡ ok q
unfolding canonical
canonical-canonical p {q} h = elim (Bool-cases (is_valid p)) [
  | inr bad ↦ absurd (cc (rw (bad, canonical) at h))
  | inl good ↦ elim (Bool-cases (is4_in_6 p.ip && leb 96 (bits p))) [
    | inl mapped ↦
        let r = prefix_from (unmap p.ip) (bits p - 96) in
        let v = unmapped_valid p.ip p.bits_plus_one good mapped in
        let same : masked r ≡ q = cc (rw (good, mapped, canonical) at h) in
        let (x, e) = unmapped p.ip (&&_elim (is4_in_6 p.ip) (leb 96 (bits p)) mapped).0 in
        let plain : is4_in_6 (mask r.ip (bits r)) ≡ false =
          ap (λ (a : Addr). is4_in_6 (mask (without_zone a) (bits r))) e in
        subst (λ (y : Prefix). canonical y ≡ ok y) same
          (fixed (masked r) (masked-IsCanonical r v) (rw (masked_ip r v, plain) refl))
    | inr other ↦
        let same : masked p ≡ q = cc (rw (good, other, canonical) at h) in
        let shape = masked_ip p good in
        subst (λ (x : Prefix). canonical x ≡ ok x) same
          (fixed (masked p) (masked-IsCanonical p good)
            (rw shape (still_unmapped p.ip (bits p) other)))
  ]
]

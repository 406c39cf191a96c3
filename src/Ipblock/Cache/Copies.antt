-- ===== src/Ipblock/Cache/Copies.antt =====
-- The copy that ipblock/cache.go makes of what a set of ipblock/set.go lists.
use blue.Prelude.{
  ℕ, ◌≤◌, leb, ◌≡◌, refl, sym, ap, ◌∙◌, true, List, All, none, some, Bool-cases, Option-cases, inl,
  inr, arith,
}
use blue.Ipblock.Address.{Addr, bits, masked, prefix_from, without_zone}
use blue.Ipblock.Covering.{IsCanonical, prefix_eq→eq, contains-exact}
use blue.Ipblock.BlockSet.{Block, active, new_block_set, lookup, list}
use blue.Ipblock.BlockSet.Index.{latest_on}
use blue.Ipblock.BlockSet.Narrowest.{Found, lookup_narrowest, lookup-Found, latest_on-All}
use blue.Ipblock.Cache.Listing.{if_active, list-All, latest_on-list}

Found-around :
    (bs : List Block) (a : Addr) (now : ℕ) (b : Block)
    → All (λ x. IsCanonical x.prefix) bs
    → without_zone a ≡ a
    → Found bs a now b
    → b.prefix ≡ masked (prefix_from a (bits b.prefix))
Found-around bs a now b all z f =
    let can : IsCanonical b.prefix =
      latest_on-All (λ (x : Block). IsCanonical x.prefix) bs b.prefix all f.held in
    prefix_eq→eq b.prefix (masked (prefix_from a (bits b.prefix)))
      (sym (contains-exact b.prefix a can z) ∙ f.covering)

-- Two blocks that cover an address and are as narrow as each other are one.
Found-unique :
    (bs : List Block) (a : Addr) (now : ℕ) (b c : Block)
    → All (λ x. IsCanonical x.prefix) bs
    → without_zone a ≡ a
    → Found bs a now b
    → Found bs a now c
    → bits b.prefix ≡ bits c.prefix
    → b ≡ c
Found-unique bs a now b c all z f g same =
    let b_at = Found-around bs a now b all z f in
    let c_at = Found-around bs a now c all z g in
    let one : b.prefix ≡ c.prefix =
      b_at ∙ ap (λ (n : ℕ). masked (prefix_from a n)) same ∙ sym c_at in
    cc (f.held, g.held, ap (latest_on bs) one)

active-earlier :
    (b : Block) (early now : ℕ) → early ≤ now → active b now ≡ true → active b early ≡ true
active-earlier b early now h on = ground (arith, h, on)

module _ (bs : List Block) (a : Addr) (early now : ℕ) (all : All (λ x. IsCanonical x.prefix) bs)
    (z : without_zone a ≡ a) (order : early ≤ now) where
  abbrev copied : List Block
  copied = list (new_block_set bs) early

  Found-original : (b : Block) → Found copied a now b → Found bs a now b
  Found-original b f = elim (Option-cases (latest_on bs b.prefix)) [
    | inl e ↦ absurd (cc (latest_on-list bs early b.prefix, f.held, ap (if_active early) e))
    | inr (c, e) ↦ elim (Bool-cases (active c early)) [
      | inr off ↦
          let gone : if_active early (some c) ≡ none = rw off refl in
          absurd (cc (latest_on-list bs early b.prefix, f.held, ap (if_active early) e, gone))
      | inl on ↦
          let kept : if_active early (some c) ≡ some c = rw on refl in
          record {
            held =
                e
                ∙ sym kept
                ∙ sym (ap (if_active early) e)
                ∙ sym (latest_on-list bs early b.prefix)
                ∙ f.held;
            on = f.on;
            covering = f.covering;
          }
    ]
  ]

  Found-copy : (b : Block) → Found bs a now b → Found copied a now b
  Found-copy b f = record {
    held =
        latest_on-list bs early b.prefix
        ∙ ap (if_active early) f.held
        ∙ rw (active-earlier b early now order f.on) refl;
    on = f.on;
    covering = f.covering;
  }

  copied-All : All (λ x. IsCanonical x.prefix) copied
  copied-All = list-All (λ x. IsCanonical x.prefix) bs early all

  in_copy :
      (c : Block)
      → Found bs a now c
      → (b : Block) × (lookup (new_block_set copied) a now ≡ some b)
        × Found copied a now b
        × (leb (bits c.prefix) (bits b.prefix) ≡ true)
  in_copy c g =
      let h = Found-copy c g in
      lookup_narrowest copied a now c.prefix c copied-All z h.held h.on h.covering

  -- A copy of the blocks that a set lists at a time answers at every time from then on as the set does: for
  -- a set of blocks on canonical prefixes and an address without a zone.
  pub lookup-list : lookup (new_block_set copied) a now ≡ lookup (new_block_set bs) a now
  lookup-list = elim (Option-cases (lookup (new_block_set copied) a now)) [
    | inl e ↦ elim (Option-cases (lookup (new_block_set bs) a now)) [
      | inl d ↦ e ∙ sym d
      | inr (c, d) ↦
          let (b, x, _, _) = in_copy c (lookup-Found bs a now c all z d) in absurd (cc (e, x))
    ]
    | inr (b, e) ↦
        let f = Found-original b (lookup-Found copied a now b copied-All z e) in
        let (c, d, g, wider) = lookup_narrowest bs a now b.prefix b all z f.held f.on f.covering in
        let (b', e', _, narrower) = in_copy c g in
        let one : b ≡ b' = cc (e, e') in
        let same : bits b.prefix ≡ bits c.prefix =
          ground (arith, wider, narrower, ap (λ (x : Block). bits x.prefix) one) in
        e ∙ ap some (Found-unique bs a now b c all z f g same) ∙ sym d
  ]

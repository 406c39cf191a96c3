-- ===== src/Ipblock/Memory/Refinement.antt =====
-- ipblock/memory.go against a blocklist as a map from prefixes to blocks.
use blue.Prelude.{
  ℕ, ltb, ◌==◌, ◌≡◌, refl, sym, ap, ◌∙◌, Bool, true, false, not, ◌&&◌, List, [], ◌∷◌, All, Option,
  none, some, Bool-cases, Option-cases, inl, inr, if◌then◌else◌,
}
use mathlib.Core.Path.{subst}
use blue.Ipblock.{Error, Result, ok, err, would_expire, ◌>>◌, refuse}
use blue.Ipblock.Address.{Prefix, prefix_eq, canonical}
use blue.Ipblock.Covering.{IsCanonical, prefix_eq→eq, canonical-IsCanonical}
use blue.Ipblock.BlockSet.{Block, prepare, find_block, new_block_set}
use blue.Ipblock.BlockSet.Index.{find_block-put_block, find_block-remove_block}
use blue.Ipblock.Memory.Maps.{
  IsMap, put_block-IsMap, remove_block-IsMap, put_block-All, remove_block-All,
}
use blue.Ipblock.Memory.{MemoryList, block, unblock, unblock_found}

-- What a call may answer.
pub data Prepared {ℓ} {A : Type ℓ} (r : Result A) : Type ℓ where
  accepted : (a : A) → r ≡ ok a → Prepared r
  refused : (e : Error) → r ≡ err e → Prepared r

pub prepared {ℓ} : {A : Type ℓ} (r : Result A) → Prepared r
prepared (ok a) = accepted a refl
prepared (err e) = refused e refl

-- A change of a blocklist, at a time.
pub data Command : Type 0 where
  block_at : ℕ → Block → Command
  unblock_at : ℕ → Prefix → Command

-- The memory list after a change; one that is refused changes nothing.
abbrev kept : MemoryList → Result MemoryList → MemoryList
kept m (ok n) = n
kept m (err e) = m

unfoldable pub obey : MemoryList → Command → MemoryList
obey m (block_at now b) = kept m (block now m b)
obey m (unblock_at now p) = (unblock now m p).1

unfoldable pub obey_all : MemoryList → List Command → MemoryList
obey_all m [] = m
obey_all m (c ∷ cs) = obey_all (obey m c) cs

-- What a blocklist promises: a map from prefixes to blocks, in which a change replaces one entry.
unfoldable pub promise : (Prefix → Option Block) → Command → Prefix → Option Block
promise f (block_at now b) p = elim (prepare b now) [
  | ok c ↦ if prefix_eq c.prefix p then some c else f p
  | err e ↦ f p
]
promise f (unblock_at now q) p = elim (canonical q) [
  | ok r ↦ if prefix_eq r p then none else f p
  | err e ↦ f p
]

unfoldable pub promise_all : (Prefix → Option Block) → List Command → Prefix → Option Block
promise_all f [] = f
promise_all f (c ∷ cs) = promise_all (promise f c) cs

-- A memory list as its calls leave it.
pub record IsSound (m : MemoryList) : Type 0 where
  pub map : IsMap m.blocks
  pub canonical_keys : All (λ b. IsCanonical b.prefix) m.blocks
  pub indexed : m.set ≡ new_block_set m.blocks

kept_prefix :
    (b : Block) (q : Prefix) (now : ℕ) (late : Bool) {c : Block}
    → (refuse late would_expire
        >> ok (record b {
          prefix = q;
          blocked_at = (if b.blocked_at == 0 then now else b.blocked_at);
        }))
      ≡ ok c
    → q ≡ c.prefix
kept_prefix b q now true h = absurd (cc h)
kept_prefix b q now false {c} h = cc h

pub prepare-canonical :
    (b : Block) (now : ℕ) {c : Block}
    → prepare b now ≡ ok c
    → (q : Prefix) × (canonical b.prefix ≡ ok q) × (q ≡ c.prefix)
unfolding prepare
prepare-canonical b now {c} h = elim (prepared (canonical b.prefix)) [
  | refused x e ↦ absurd (cc (rw (e, prepare) at h))
  | accepted q e ↦ (
    q,
    e,
    kept_prefix b q now (not (b.expires_at == 0) && not (ltb now b.expires_at))
        (rw (e, prepare) at h),
  )
]

prepare-IsCanonical :
    (b : Block) (now : ℕ) {c : Block} → prepare b now ≡ ok c → IsCanonical c.prefix
prepare-IsCanonical b now h =
    let (q, e, same) = prepare-canonical b now h in
    subst IsCanonical same (canonical-IsCanonical b.prefix e)

removed :
    (now : ℕ) (m : MemoryList) (q : Prefix)
    → IsSound m
    → IsSound (unblock_found now m q (find_block m.blocks q)).1
removed now m q s = elim (Option-cases (find_block m.blocks q)) [
  | inl e ↦ rw e s
  | inr (b, e) ↦ rw e (record {
    map = remove_block-IsMap m.blocks q s.map;
    canonical_keys = remove_block-All (λ x. IsCanonical x.prefix) m.blocks q s.canonical_keys;
    indexed = refl;
  })
]

obey-IsSound : (m : MemoryList) (c : Command) → IsSound m → IsSound (obey m c)
unfolding obey block unblock
obey-IsSound m (block_at now b) s = elim (prepared (prepare b now)) [
  | accepted c e ↦
      rw (e, obey, block)
        (record {
          map = put_block-IsMap m.blocks c s.map;
          canonical_keys =
              put_block-All (λ x. IsCanonical x.prefix) m.blocks c s.canonical_keys
                (prepare-IsCanonical b now e);
          indexed = refl;
        })
  | refused x e ↦ rw (e, obey, block) s
]
obey-IsSound m (unblock_at now p) s = elim (prepared (canonical p)) [
  | accepted q e ↦ rw (e, obey, unblock) (removed now m q s)
  | refused x e ↦ rw (e, obey, unblock) s
]

pub obey_all-IsSound : (m : MemoryList) (cs : List Command) → IsSound m → IsSound (obey_all m cs)
unfolding obey_all
obey_all-IsSound m [] s = s
obey_all-IsSound m (c ∷ cs) s = obey_all-IsSound (obey m c) cs (obey-IsSound m c s)

erased :
    (now : ℕ) (m : MemoryList) (q p : Prefix)
    → find_block (unblock_found now m q (find_block m.blocks q)).1.blocks p
      ≡ (if prefix_eq q p then none else find_block m.blocks p)
erased now m q p = elim (Option-cases (find_block m.blocks q)) [
  | inr (b, e) ↦ rw e (find_block-remove_block m.blocks q p)
  | inl e ↦ rw e (elim (Bool-cases (prefix_eq q p)) [
    | inl same ↦ rw same (ap (find_block m.blocks) (sym (prefix_eq→eq q p same)) ∙ e)
    | inr other ↦ rw other refl
  ])
]

obey-promise :
    (m : MemoryList) (c : Command) (p : Prefix)
    → find_block (obey m c).blocks p ≡ promise (find_block m.blocks) c p
unfolding obey block unblock promise
obey-promise m (block_at now b) p = elim (prepared (prepare b now)) [
  | accepted c e ↦ rw (e, obey, block, promise) (find_block-put_block m.blocks c p)
  | refused x e ↦ rw (e, obey, block, promise) refl
]
obey-promise m (unblock_at now q) p = elim (prepared (canonical q)) [
  | accepted r e ↦ rw (e, obey, unblock, promise) (erased now m r p)
  | refused x e ↦ rw (e, obey, unblock, promise) refl
]

promise-cong :
    (f g : Prefix → Option Block) (c : Command)
    → ((p : Prefix) → f p ≡ g p)
    → (p : Prefix) → promise f c p ≡ promise g c p
unfolding promise
promise-cong f g (block_at now b) h p = elim (prepared (prepare b now)) [
  | accepted c e ↦ rw (e, promise) (ap (λ o. if prefix_eq c.prefix p then some c else o) (h p))
  | refused x e ↦ rw (e, promise) (h p)
]
promise-cong f g (unblock_at now q) h p = elim (prepared (canonical q)) [
  | accepted r e ↦ rw (e, promise) (ap (λ o. if prefix_eq r p then none else o) (h p))
  | refused x e ↦ rw (e, promise) (h p)
]

pub obey_all-promise_all :
    (f : Prefix → Option Block) (m : MemoryList) (cs : List Command)
    → ((p : Prefix) → find_block m.blocks p ≡ f p)
    → (p : Prefix) → find_block (obey_all m cs).blocks p ≡ promise_all f cs p
unfolding obey_all promise_all
obey_all-promise_all f m [] h p = h p
obey_all-promise_all f m (c ∷ cs) h p =
    obey_all-promise_all (promise f c) (obey m c) cs
      (λ q. obey-promise m c q ∙ promise-cong (find_block m.blocks) f c h q) p

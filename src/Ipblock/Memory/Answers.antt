-- ===== src/Ipblock/Memory/Answers.antt =====
-- Check of ipblock/memory.go answers what a blocklist promises.
use blue.Prelude.{
  ℕ, leb, ◌≡◌, refl, sym, ◌∙◌, Bool, true, false, not, ◌&&◌, ◌||◌, List, Option, none, some,
  Bool-cases, Option-cases, &&_elim, inl, inr,
}
use blue.Ipblock.{ok}
use blue.Ipblock.Address.{Addr, Prefix, bits, contains, canonical_addr, without_zone}
use blue.Ipblock.Covering.{canonical_addr-no_zone}
use blue.Ipblock.BlockSet.{Block, active, find_block, new_block_set, lookup}
use blue.Ipblock.BlockSet.Index.{latest_on}
use blue.Ipblock.BlockSet.Narrowest.{lookup_narrowest, lookup-Found}
use blue.Ipblock.Memory.Maps.{latest_on-find_block}
use blue.Ipblock.Memory.{MemoryList, new_memory_list, check}
use blue.Ipblock.Memory.Refinement.{
  Command, obey_all, promise_all, IsSound, obey_all-IsSound, obey_all-promise_all,
}

abbrev is_no_wider : Prefix → Option Block → Bool
is_no_wider p none = false
is_no_wider p (some b) = leb (bits p) (bits b.prefix)

abbrev yields : Prefix → Addr → ℕ → Option Block → Option Block → Bool
yields p a now o none = true
yields p a now o (some c) = not (active c now && contains p a) || is_no_wider p o

abbrev Chosen : (Prefix → Option Block) → Addr → ℕ → Option Block → Type 0
Chosen f a now none = Unit {0}
Chosen f a now (some b) =
    (f b.prefix ≡ some b) × (active b now ≡ true) × (contains b.prefix a ≡ true)

-- The answer to an address: a block that is in force and covers it, as narrow as any other such block,
-- and none only where there is none.
pub record Answers (f : Prefix → Option Block) (a : Addr) (now : ℕ) (o : Option Block)
    : Type 0 where
  chosen : Chosen f a now o
  narrowest : (p : Prefix) → yields p a now o (f p) ≡ true

-- What lookup answers on a sound memory list is what its map promises.
lookup-Answers :
    (m : MemoryList) (f : Prefix → Option Block) (a : Addr) (now : ℕ)
    → IsSound m
    → ((p : Prefix) → find_block m.blocks p ≡ f p)
    → without_zone a ≡ a
    → Answers f a now (lookup m.set a now)
lookup-Answers m f a now s same z =
    let view : (p : Prefix) → latest_on m.blocks p ≡ f p =
      λ p. latest_on-find_block m.blocks p s.map ∙ same p in
    let found = lookup (new_block_set m.blocks) a now in
    rw s.indexed (record {
      chosen = elim (Option-cases found) [
        | inl e ↦ rw e tt
        | inr (b, e) ↦
            let h = lookup-Found m.blocks a now b s.canonical_keys z e in
            rw e (sym (view b.prefix) ∙ h.held, h.on, h.covering)
      ];
      narrowest = λ p. elim (Option-cases (f p)) [
        | inl e ↦ rw e refl
        | inr (c, e) ↦ elim (Bool-cases (active c now && contains p a)) [
          | inr other ↦ rw (e, other) refl
          | inl both ↦
              let (on, covering) = &&_elim (active c now) (contains p a) both in
              let (b, answer, _, narrow) =
                lookup_narrowest m.blocks a now p c s.canonical_keys z (view p ∙ e) on covering in
              rw (e, answer) (rw (both, narrow) refl)
        ]
      ];
    })

pub first_IsSound : IsSound new_memory_list
first_IsSound = record { map = tt; canonical_keys = tt; indexed = refl }

-- After any changes of a new memory list, each at its own time, Check of an address that is valid answers
-- as a map from prefixes to blocks that the changes replaced entries of promises: a block of the map that
-- is in force and covers the address, as narrow as any other such, and none only where there is none.
pub check-Answers :
    (cs : List Command) (now : ℕ) (addr a : Addr)
    → canonical_addr addr ≡ ok a
    → (o : Option Block) × (check now (obey_all new_memory_list cs) addr ≡ ok o)
      × Answers (promise_all (λ p. none) cs) a now o
unfolding check find_block
check-Answers cs now addr a h =
    let m = obey_all new_memory_list cs in
    (
      lookup m.set a now,
      rw h refl,
      lookup-Answers m (promise_all (λ p. none) cs) a now
          (obey_all-IsSound new_memory_list cs first_IsSound)
          (obey_all-promise_all (λ p. none) new_memory_list cs (λ p. refl))
          (canonical_addr-no_zone addr h),
    )

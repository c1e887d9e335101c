-- ===== src/Pmm/Merge.antt =====
-- __buddy_merge_inner puts a block back among the free pages, joined with its free buddies.
use pke.Base.{
  ℕ, suc, ◌+◌, ◌%◌, ◌^◌, ◌≤◌, ◌<◌, ◌≡◌, refl, ◌≢◌, ◌⊎◌, ◌↔◌, inl, inr, true, false, [], ◌∷◌, arith,
  has, remove, Bool-cases, ◌==◌, ltb, ltb→lt, ltb_false→le,
}
use native.Mathlib.Nat.{one-le-pow, pow-suc}
use pke.Pmm.Links.{max_order, node, list_del}
use pke.Pmm.State.{Area, write_page}
use pke.Pmm.Invariant.{
  Lists, put_list, Apart, IsFreeHead, Fits, IsBuddy, detach, rewrite_page, relist, still_has,
  detached_out, detached-Apart,
}
use pke.Pmm.Blocks.{InBlock, Covers, Covers-take}
use pke.Pmm.Alloc.{IsSmall}

-- A block that belongs to nobody: it is in no list and shares no page with a free block. The loop
-- of the merge holds such a block, and only its order is written in its descriptor.
pub record Pending (s : Area) (fl : Lists) (o p : ℕ) : Type 0 where
  pub valid : IsBuddy s fl []
  pub small : IsSmall s
  pub whole : s.nr_pages % 2 ^ 10 ≡ 0
  pub limit : o ≤ 10
  pub fits : Fits s.nr_pages o p
  pub apart : (j q : ℕ) → j < max_order → has q (fl j) ≡ true → Apart o p j q
  pub unmarked : (s.pages p).is_free ≡ 0
  pub order : (s.pages p).order ≡ o

-- Its first page starts no free block.
pub Pending-out :
    {s : Area} {fl : Lists} {o p : ℕ}
    → Pending s fl o p
    → (i : ℕ) → i < max_order
    → has p (fl i) ≡ false
Pending-out {fl} {o} {p} w i hi = elim (Bool-cases (has p (fl i))) [
  | inl h ↦ absurd (elim (w.apart i p hi h) [
    | inl e ↦ omega (arith, one-le-pow o 2)
    | inr e ↦ omega (arith, one-le-pow i 2)
  ])
  | inr h ↦ h
]

-- Two neighbours of one order make a block of the next.
pair-Apart : (o p j q : ℕ) → Apart o p j q → Apart o (p + 2 ^ o) j q → Apart (suc o) p j q
pair-Apart o p j q (inl a) (inl c) = inl (omega (arith, pow-suc 2 o))
pair-Apart o p j q (inl a) (inr c) = absurd (omega (arith, one-le-pow j 2))
pair-Apart o p j q (inr a) c = inr a

pair_block : (o p q : ℕ) → InBlock (suc o) p q ↔ (InBlock o p q ⊎ InBlock o (p + 2 ^ o) q)
pair_block o p q = (
  λ h. elim (Bool-cases (ltb q (p + 2 ^ o))) [
    | inl below ↦ inl (h.0, ltb→lt _ _ below)
    | inr above ↦ inr (ltb_false→le _ _ above, omega (arith, h.1, pow-suc 2 o))
  ],
  λ h. elim h [
    | inl i ↦ (i.0, omega (arith, i.1, pow-suc 2 o))
    | inr i ↦ (omega (arith, i.0), omega (arith, i.1, pow-suc 2 o))
  ],
)

-- The buddy `bud` of the block at `p` is a free block of the same order, and `low` is the first of
-- the two.
pub record Joined (o p bud low : ℕ) : Type 0 where
  pub sides : ((p ≡ low) × (bud ≡ low + 2 ^ o)) ⊎ ((bud ≡ low) × (p ≡ low + 2 ^ o))
  pub aligned : low % 2 ^ suc o ≡ 0

module _ (s : Area) (fl : Lists) (o p bud low : ℕ) where
  abbrev pub bud_out : Area
  bud_out = record s { links = list_del s.links (node bud) }

  abbrev pub bud_clear : Area
  bud_clear = write_page bud (record (s.pages bud) { is_free = 0; is_head = 0 }) bud_out

  abbrev pub joined : Area
  joined = write_page low (record (bud_clear.pages low) { order = (o + 1) % 32 }) bud_clear

  abbrev pub lists_without : Lists
  lists_without = put_list fl o (remove bud (fl o))

  module _ (w : Pending s fl o p) (j : Joined o p bud low) (more : o < 10)
      (room : low + 2 ^ suc o ≤ s.nr_pages) (free : IsFreeHead (s.pages bud) o) where
    bud_listed : has bud (fl o) ≡ true
    bud_listed = (w.valid.listed o bud bud_in_memory refl free).1
      where
        bud_in_memory : bud < s.nr_pages
        bud_in_memory = elim j.sides [
          | inl e ↦ omega (arith, pow-suc 2 o, one-le-pow o 2)
          | inr e ↦ omega (arith, one-le-pow (suc o) 2)
        ]

    still : (i q : ℕ) → has q (lists_without i) ≡ true → has q (fl i) ≡ true
    still i q h = still_has w.valid o bud i q h

    own_out : (i : ℕ) → i < max_order → has p (lists_without i) ≡ false
    own_out i hi = elim (Bool-cases (has p (lists_without i))) [
      | inl h ↦ let old = still i p h in let new = Pending-out w i hi in cc
      | inr h ↦ h
    ]

    bud_out_of_lists : (i : ℕ) → i < max_order → has bud (lists_without i) ≡ false
    bud_out_of_lists i hi = detached_out w.valid o bud i (omega arith) hi bud_listed

    low_out : (i : ℕ) → i < max_order → has low (lists_without i) ≡ false
    low_out i hi = elim j.sides [
      | inl e ↦ rw (← e.0) (own_out i hi)
      | inr e ↦ rw (← e.0) (bud_out_of_lists i hi)
    ]

    bud_apart : bud ≢ p
    bud_apart e = elim j.sides [
      | inl h ↦ omega (arith, one-le-pow o 2)
      | inr h ↦ omega (arith, one-le-pow o 2)
    ]

    low_unmarked : (joined.pages low).is_free ≡ 0
    low_unmarked = elim j.sides [
      | inl e ↦ ground (arith, w.unmarked, bud_apart)
      | inr e ↦ ground arith
    ]

    no_mark : (q : ℕ) → has q (low ∷ bud ∷ bud ∷ []) ≡ true → (joined.pages q).is_free ≢ 1
    no_mark q inside mark = elim (Bool-cases (q == low)) [
      | inl e ↦
          let eq : q ≡ low = ground arith in
          let mark' : (joined.pages low).is_free ≡ 1 = rw eq at mark in omega (arith, low_unmarked)
      | inr e ↦ ground arith
    ]

    joined-IsBuddy : IsBuddy joined lists_without []
    joined-IsBuddy =
        relist
          (rewrite_page
            (rewrite_page (detach w.valid o bud (omega arith) bud_listed) bud _ bud_out_of_lists)
            low _ low_out)
          [] λ i q hq out inside mark. absurd (no_mark q inside mark.0)

    joined-Apart :
        (i q : ℕ) → i < max_order → has q (lists_without i) ≡ true → Apart (suc o) low i q
    joined-Apart i q hi h =
        let own = w.apart i q hi (still i q h) in
        let other = detached-Apart w.valid o bud i q (omega arith) hi bud_listed h in
        elim j.sides [
          | inl e ↦ pair-Apart o low i q (rw (← e.0) own) (rw (← e.1) other)
          | inr e ↦ pair-Apart o low i q (rw (← e.0) other) (rw (← e.1) own)
        ]

    pub Pending-joined : Pending joined lists_without (suc o) low
    Pending-joined = record {
      valid = joined-IsBuddy;
      small = w.small;
      whole = w.whole;
      limit = omega arith;
      fits = (j.aligned, room);
      apart = joined-Apart;
      unmarked = low_unmarked;
      order = ground arith;
    }

    pub Covers-joined :
        (q : ℕ) → (InBlock o p q ⊎ Covers fl q) ↔ (InBlock (suc o) low q ⊎ Covers lists_without q)
    Covers-joined q = (
      λ c. elim c [
        | inl own ↦ inl (both.1 (inl own))
        | inr c' ↦ elim (taken.0 c') [ inl other ↦ inl (both.1 (inr other)) | inr rest ↦ inr rest ]
      ],
      λ c. elim c [
        | inl two ↦ elim (both.0 two) [ inl own ↦ inl own | inr other ↦ inr (taken.1 (inl other)) ]
        | inr rest ↦ inr (taken.1 (inr rest))
      ],
    )
      where
        taken : Covers fl q ↔ (InBlock o bud q ⊎ Covers lists_without q)
        taken = Covers-take fl o bud (omega arith) q bud_listed

        both : InBlock (suc o) low q ↔ (InBlock o p q ⊎ InBlock o bud q)
        both =
            let pair = pair_block o low q in
            elim j.sides [
              | inl e ↦ rw (e.0, e.1) pair
              | inr e ↦
                  rw (e.0, e.1)
                    (
                      λ h. elim (pair.0 h) [ inl a ↦ inr a | inr a ↦ inl a ],
                      λ h. elim h [ inl a ↦ pair.1 (inr a) | inr a ↦ pair.1 (inl a) ],
                    )
            ]

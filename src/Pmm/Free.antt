-- ===== src/Pmm/Free.antt =====
-- The loop of __buddy_merge_inner and buddy_free: the pages of the block, and no others, become
-- free.
use pke.Base.{
  subst, ℕ, zero, suc, ◌+◌, ◌-◌, ◌%◌, ◌^◌, ◌≤◌, ◌<◌, ◌≡◌, refl, ◌⊎◌, ◌↔◌, inl, inr, true, false, [],
  ◌∷◌, arith, has, Bool-cases, ◌==◌, sym, ◌∙◌, ap, Returns, returns, Returns-bind, Returns-mono,
  not, ◌||◌,
}
use native.Mathlib.Nat.{one-le-pow, pow-suc}
use pke.Pmm.Links.{max_order, head, node, list_add}
use pke.Pmm.State.{Area, write_page, load_page-ok, store_page-ok}
use pke.Pmm.Invariant.{
  Lists, put_list, Apart, IsFreeHead, Fits, IsBuddy, attach, rewrite_page, relist,
}
use pke.Pmm.Blocks.{InBlock, Covers, Covers-put}
use pke.Pmm.Alloc.{IsSmall}
use pke.Pmm.Mates.{mate, merged, Mates, behind, before, Mates-aligned, mate_room}
use pke.Pmm.Merge.{
  Pending, Pending-out, Joined, joined, bud_out, bud_clear, Pending-joined, Covers-joined,
}
use pke.Pmm.Buddy.{merge_loop, buddy_merge_inner}

-- The block at `p` of order `o` has grown to the block at `last` of order `o'`: together with the
-- free pages both make the same set of pages.
pub record Grown (s : Area) (fl : Lists) (o p o' last : ℕ) (t : Area) : Type 0 where
  pub lists : Lists
  pub pending : Pending t lists o' last
  pub size : t.nr_pages ≡ s.nr_pages
  pub same : (q : ℕ) → (InBlock o p q ⊎ Covers fl q) ↔ (InBlock o' last q ⊎ Covers lists q)

record Mated (nr o p : ℕ) : Type 0 where
  joins : Joined o p (mate o p) (merged o p)
  room : merged o p + 2 ^ suc o ≤ nr
  reachable : mate o p < nr
  lower : merged o p < nr

mated : {s : Area} {fl : Lists} (o p : ℕ) → Pending s fl o p → o < 10 → Mated s.nr_pages o p
mated {s} o p w more =
    go (Mates-aligned o p w.limit (omega (arith, w.fits.1, one-le-pow o 2)) w.fits.0)
  where
    go : Mates o p → Mated s.nr_pages o p
    go (behind em el aligned) =
        let room = mate_room s.nr_pages o p w.whole more aligned w.fits.1 in
        record {
          joins = record {
            sides = inl (sym el, em ∙ ap (λ (t : ℕ). t + 2 ^ o) (sym el));
            aligned = rw el aligned;
          };
          room = rw el room;
          reachable = omega (arith, em, pow-suc 2 o, one-le-pow o 2);
          lower = omega (arith, el, one-le-pow o 2, w.fits.1);
        }
    go (before em el aligned) = record {
      joins = record {
        sides = inr (sym el, sym em ∙ ap (λ (t : ℕ). t + 2 ^ o) (sym el));
        aligned = rw el aligned;
      };
      room = omega (arith, em, el, pow-suc 2 o, w.fits.1);
      reachable = omega (arith, em, one-le-pow o 2, w.fits.1);
      lower = omega (arith, em, el, one-le-pow o 2, w.fits.1);
    }

suc_o : (o : ℕ) → o + 1 ≡ suc o
suc_o o = omega arith

pub merge_loop-Grown :
    (rounds o p : ℕ) {s : Area} {fl : Lists}
    → Pending s fl o p
    → o + rounds ≡ 10
    → Returns (λ r t. Grown s fl o p r.1 r.0 t) (merge_loop rounds p o s)
unfolding merge_loop
merge_loop-Grown zero o p {fl} w e =
    returns (record { lists = fl; pending = w; size = refl; same = λ q. (λ c. c, λ c. c) })
merge_loop-Grown (suc rounds) o p {s} {fl} w e =
    let more : o < 10 = omega arith in
    let md : Mated s.nr_pages o p = mated o p w more in
    let bud : ℕ = mate o p in
    let low : ℕ = merged o p in
    rw (load_page-ok bud s md.reachable)
      (elim (Bool-cases (
        not ((s.pages bud).order == o)
        || not ((s.pages bud).is_free == 1)
        || not ((s.pages bud).is_head == 1))) [
          | inl stays ↦ rw stays (
              returns
                (record { lists = fl; pending = w; size = refl; same = λ q. (λ c. c, λ c. c) }))
          | inr goes ↦
              let free : IsFreeHead (s.pages bud) o = ground arith in
              rw
                (
                  goes,
                  store_page-ok bud (bud_out s fl o p bud low)
                      (record (s.pages bud) { is_free = 0; is_head = 0 }) md.reachable,
                  load_page-ok low (bud_clear s fl o p bud low) md.lower,
                  store_page-ok low (bud_clear s fl o p bud low)
                      (record ((bud_clear s fl o p bud low).pages low) { order = (o + 1) % 32 })
                      md.lower,
                )
                (subst
                  (λ n.
                    Returns (λ r t. Grown s fl o p r.1 r.0 t)
                      (merge_loop rounds low n (joined s fl o p bud low)))
                  (sym (suc_o o))
                  (Returns-mono
                    (merge_loop-Grown rounds (suc o) low
                      (Pending-joined s fl o p bud low w md.joins more md.room free) (omega arith))
                    λ r t g. record {
                      lists = g.lists;
                      pending = g.pending;
                      size = g.size;
                      same = λ q.
                          let step =
                            Covers-joined s fl o p bud low w md.joins more md.room free q in
                          (λ c. (g.same q).0 (step.0 c), λ c. step.1 ((g.same q).1 c));
                    }))
        ])

-- A block of order `o` at page `p` that is in use: the free lists are in order, none of their
-- blocks meets it, and its descriptor tells its order.
pub record Held (s : Area) (fl : Lists) (o p : ℕ) : Type 0 where
  pub valid : IsBuddy s fl []
  pub small : IsSmall s
  pub whole : s.nr_pages % 2 ^ 10 ≡ 0
  pub limit : o ≤ 10
  pub fits : Fits s.nr_pages o p
  pub apart : (j q : ℕ) → j < max_order → has q (fl j) ≡ true → Apart o p j q
  pub order : (s.pages p).order ≡ o

-- The block of order `o` at page `p` has become free, and no other page changed hands.
pub record Freed (s : Area) (fl : Lists) (o p : ℕ) (t : Area) : Type 0 where
  pub lists : Lists
  pub valid : IsBuddy t lists []
  pub size : t.nr_pages ≡ s.nr_pages
  pub free : (q : ℕ) → Covers lists q ↔ (InBlock o p q ⊎ Covers fl q)

module _ {s : Area} {fl : Lists} {o p : ℕ} (h : Held s fl o p) where
  abbrev cleared : Area
  cleared = write_page p (record (s.pages p) { is_free = 0; is_head = 0; alloc = 0 }) s

  held_out : (j : ℕ) → j < max_order → has p (fl j) ≡ false
  held_out j hj = elim (Bool-cases (has p (fl j))) [
    | inl inside ↦ absurd (elim (h.apart j p hj inside) [
      | inl e ↦ omega (arith, one-le-pow o 2)
      | inr e ↦ omega (arith, one-le-pow j 2)
    ])
    | inr outside ↦ outside
  ]

  Pending-cleared : Pending cleared fl o p
  Pending-cleared = record {
    valid = relist (rewrite_page h.valid p _ held_out) [] λ i q hq out inside mark. ground arith;
    small = h.small;
    whole = h.whole;
    limit = h.limit;
    fits = h.fits;
    apart = h.apart;
    unmarked = ground arith;
    order = ground (arith, h.order);
  }

module _ {t : Area} {fl : Lists} {o p : ℕ} (w : Pending t fl o p) where
  abbrev marked : Area
  marked = write_page p (record (t.pages p) { is_free = 1; is_head = 1; alloc = 0 }) t

  abbrev listed : Area
  listed = record marked { links = list_add marked.links (head o) (node p) (node p) }

  listed-IsBuddy : IsBuddy listed (put_list fl o (p ∷ fl o)) []
  listed-IsBuddy =
      relist
        (attach (rewrite_page w.valid p _ (Pending-out w)) o p (omega (arith, w.limit))
          (Pending-out w) (ground (arith, w.order)) w.fits w.apart)
        [] λ i q hq out inside mark. ground (arith, w.order, w.limit)

-- The writes after the loop put the block that it stopped at into its list.
settle :
    {u t : Area} {fl : Lists} (s : Area) (o p o' last : ℕ)
    → u.nr_pages ≡ s.nr_pages
    → (g : Grown u fl o p o' last t) → Freed s fl o p (listed g.pending)
settle s o p o' last e g = record {
  lists = put_list g.lists o' (last ∷ g.lists o');
  valid = listed-IsBuddy g.pending;
  size = g.size ∙ e;
  free = λ q.
      let put = Covers-put g.lists o' last (omega (arith, g.pending.limit)) q in
      (λ c. (g.same q).1 (put.0 c), λ c. put.1 ((g.same q).0 c));
}

-- The order that the block's descriptor tells.
merge_own_order :
    {s : Area} {fl : Lists} (p : ℕ)
    → Held s fl (s.pages p).order p
    → Returns (λ _ t. Freed s fl (s.pages p).order p t) (buddy_merge_inner p s)
unfolding buddy_merge_inner
merge_own_order {s} {fl} p h =
    let here : p < s.nr_pages = omega (arith, h.fits.1, one-le-pow (s.pages p).order 2) in
    rw
      (
        load_page-ok p s here,
        store_page-ok p s (record (s.pages p) { is_free = 0; is_head = 0; alloc = 0 }) here,
      )
      (Returns-bind
        (merge_loop-Grown (10 - (s.pages p).order) (s.pages p).order p (Pending-cleared h)
          (omega (arith, h.limit)))
        λ r t g.
          let last_here : r.0 < t.nr_pages = omega (arith, g.pending.fits.1, one-le-pow r.1 2) in
          rw
            (
              load_page-ok r.0 t last_here,
              store_page-ok r.0 t (record (t.pages r.0) { is_free = 1; is_head = 1; alloc = 0 })
                  last_here,
            )
            (returns (settle s (s.pages p).order p r.1 r.0 refl g)))

-- __buddy_merge_inner on a block in use that shares no page with a free one, in a memory whose
-- number of pages is a multiple of 1024, returns with the lists in order, and frees exactly the
-- pages of the block.
pub buddy_merge_inner-Freed :
    {s : Area} {fl : Lists} {o p : ℕ}
    → Held s fl o p
    → Returns (λ _ t. Freed s fl o p t) (buddy_merge_inner p s)
buddy_merge_inner-Freed {s} {fl} {o} {p} h =
    Returns-mono (merge_own_order p (subst (λ n. Held s fl n p) (sym h.order) h))
      λ _ t f. subst (λ n. Freed s fl n p t) h.order f

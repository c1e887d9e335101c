-- ===== src/Process/Sample.antt =====
-- A machine for the tests of do_fork: a parent, a child and a region of two pages.
use pke.Base.{zero, suc, ◌<◌, inl, inr, ◌+◌, ◌*◌, ◌/◌, ◌==◌, if◌then◌else◌, refl, arith, ℕ}
use pke.Process.Region.{page_va, AnEntry, IsRegion}
use pke.Kernel.{Kernel}
use pke.Vmm.Pte.{px, has_flag, pte_to_pa}
use pke.Vmm.Lookup.{Off, Reaches}
use pke.Process.Shared.{Private}
use pke.Samples.{machine, page_dir, leaf_table}

-- Parent and child have tables of their own; the two pages from 0x400000 on of the parent are
-- private.
abbrev pub child_dir : ℕ
child_dir = 0x8011_0000

abbrev pub child_leaf : ℕ
child_leaf = 0x8011_2000

abbrev pub forking : Kernel
forking = record machine {
  mem = λ a.
      if a == leaf_table
      then 0x2008_00d7
      else if a == leaf_table + 8
      then 0x2008_04d7
      else if a == child_dir
      then 0x8011_1000 / 4096 * 1024 + 1
      else if a == 0x8011_1010
      then child_leaf / 4096 * 1024 + 1
      else machine.mem a;
}

-- The entries of page `j` in a table of leaves.
abbrev pub in_table : ℕ → ℕ → ℕ
in_table table j = table + 8 * j

parent-Reaches :
    (j : ℕ) → j < 2 → Reaches forking page_dir (page_va 0x40_0000 j) (in_table leaf_table j)
unfolding px has_flag pte_to_pa
parent-Reaches zero h = record {
  leaves = leaf_table;
  walks = record {
    medium = 0x8010_1000;
    top_valid = refl;
    top = refl;
    medium_valid = refl;
    low = refl;
  };
  here = refl;
  not_null = λ e. absurd (omega (arith, e));
  not_top = λ e. absurd (omega (arith, e));
  not_medium = λ e. absurd (omega (arith, e));
  positive = omega arith;
  below = omega arith;
}
parent-Reaches (suc zero) h = record {
  leaves = leaf_table;
  walks = record {
    medium = 0x8010_1000;
    top_valid = refl;
    top = refl;
    medium_valid = refl;
    low = refl;
  };
  here = refl;
  not_null = λ e. absurd (omega (arith, e));
  not_top = λ e. absurd (omega (arith, e));
  not_medium = λ e. absurd (omega (arith, e));
  positive = omega arith;
  below = omega arith;
}
parent-Reaches (suc (suc j)) h = absurd (omega arith)

child-Reaches :
    (j : ℕ) → j < 2 → Reaches forking child_dir (page_va 0x40_0000 j) (in_table child_leaf j)
unfolding px has_flag pte_to_pa
child-Reaches zero h = record {
  leaves = child_leaf;
  walks = record {
    medium = 0x8011_1000;
    top_valid = refl;
    top = refl;
    medium_valid = refl;
    low = refl;
  };
  here = refl;
  not_null = λ e. absurd (omega (arith, e));
  not_top = λ e. absurd (omega (arith, e));
  not_medium = λ e. absurd (omega (arith, e));
  positive = omega arith;
  below = omega arith;
}
child-Reaches (suc zero) h = record {
  leaves = child_leaf;
  walks = record {
    medium = 0x8011_1000;
    top_valid = refl;
    top = refl;
    medium_valid = refl;
    low = refl;
  };
  here = refl;
  not_null = λ e. absurd (omega (arith, e));
  not_top = λ e. absurd (omega (arith, e));
  not_medium = λ e. absurd (omega (arith, e));
  positive = omega arith;
  below = omega arith;
}
child-Reaches (suc (suc j)) h = absurd (omega arith)

parent-Off :
    (j : ℕ) (h : j < 2) (a : ℕ)
    → AnEntry 2 (in_table leaf_table) (in_table child_leaf) a
    → Off (parent-Reaches j h) a
unfolding px parent-Reaches
parent-Off zero h a (i, lt, inl e) = record {
  not_top = λ q. absurd (omega (arith, q, e, lt));
  not_medium = λ q. absurd (omega (arith, q, e, lt));
}
parent-Off zero h a (i, lt, inr e) = record {
  not_top = λ q. absurd (omega (arith, q, e, lt));
  not_medium = λ q. absurd (omega (arith, q, e, lt));
}
parent-Off (suc zero) h a (i, lt, inl e) = record {
  not_top = λ q. absurd (omega (arith, q, e, lt));
  not_medium = λ q. absurd (omega (arith, q, e, lt));
}
parent-Off (suc zero) h a (i, lt, inr e) = record {
  not_top = λ q. absurd (omega (arith, q, e, lt));
  not_medium = λ q. absurd (omega (arith, q, e, lt));
}
parent-Off (suc (suc j)) h a e = absurd (omega arith)

child-Off :
    (j : ℕ) (h : j < 2) (a : ℕ)
    → AnEntry 2 (in_table leaf_table) (in_table child_leaf) a
    → Off (child-Reaches j h) a
unfolding px child-Reaches
child-Off zero h a (i, lt, inl e) = record {
  not_top = λ q. absurd (omega (arith, q, e, lt));
  not_medium = λ q. absurd (omega (arith, q, e, lt));
}
child-Off zero h a (i, lt, inr e) = record {
  not_top = λ q. absurd (omega (arith, q, e, lt));
  not_medium = λ q. absurd (omega (arith, q, e, lt));
}
child-Off (suc zero) h a (i, lt, inl e) = record {
  not_top = λ q. absurd (omega (arith, q, e, lt));
  not_medium = λ q. absurd (omega (arith, q, e, lt));
}
child-Off (suc zero) h a (i, lt, inr e) = record {
  not_top = λ q. absurd (omega (arith, q, e, lt));
  not_medium = λ q. absurd (omega (arith, q, e, lt));
}
child-Off (suc (suc j)) h a e = absurd (omega arith)

private : (j : ℕ) → j < 2 → Private (forking.mem (in_table leaf_table j))
unfolding has_flag
private zero h = record {
  word = omega arith;
  valid = refl;
  readable = refl;
  writable = refl;
  unmarked = refl;
}
private (suc zero) h = record {
  word = omega arith;
  valid = refl;
  readable = refl;
  writable = refl;
  unmarked = refl;
}
private (suc (suc j)) h = absurd (omega arith)

pub two_pages :
    IsRegion forking page_dir child_dir 0x40_0000 2 (in_table leaf_table) (in_table child_leaf)
two_pages = record {
  parent = parent-Reaches;
  child = child-Reaches;
  parent_off = parent-Off;
  child_off = child-Off;
  ptes = λ i j hi hj ne q. ne (omega (arith, q));
  leaves = λ i j hi hj ne q. ne (omega (arith, q));
  apart = λ i j hi hj q. absurd (omega (arith, q, hi, hj));
  private = private;
}

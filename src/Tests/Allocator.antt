-- ===== src/Tests/Allocator.antt =====
-- kalloc.c at the first pages behind a small kernel.
use hyu_3rd_1se.Prelude.{◌-◌, ◌/◌, ◌≡◌, refl, true, [], ◌∷◌, ok, arith}
use hyu_3rd_1se.Thread.{pground_up}
use hyu_3rd_1se.Kalloc.{Kmem, freerange, kalloc}
use hyu_3rd_1se.Kalloc.Pages.{IsFree, freed, KallocResult, kalloc-KallocResult, freerange-IsFree}

-- The kernel ends at 0x80100010, and the page at 0x80101000 is free.
abbrev one_page : Kmem
one_page = record {
  memory = λ a. 0;
  kernel_end = 2148532240;
  freelist = 2148536320;
  use_lock = true;
}

one_page-IsFree : IsFree one_page (2148536320 ∷ [])
one_page-IsFree = record {
  chain = (refl, refl);
  pages = ((omega arith, refl), omega arith, omega arith);
}

kalloc-KallocResult_example : KallocResult one_page (2148536320 ∷ []) (kalloc one_page)
kalloc-KallocResult_example = kalloc-KallocResult one_page (2148536320 ∷ []) one_page-IsFree

-- From 0x80102010 on, three pages and a rest.
freerange-IsFree_example :
    (s' : Kmem) × (freerange 5 2148540432 2148556900 one_page ≡ ok s')
    × IsFree s' (
        freed
          (pground_up 2148540432)
          ((2148556900 - pground_up 2148540432) / 4096)
          (2148536320 ∷ []))
freerange-IsFree_example =
    freerange-IsFree 5 2148540432 2148556900 one_page (2148536320 ∷ []) one_page-IsFree
      (omega arith, omega arith) (omega arith) (omega arith) (omega arith) (omega arith)
      (omega arith) (omega arith)

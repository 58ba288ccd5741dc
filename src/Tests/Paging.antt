-- ===== src/Tests/Paging.antt =====
-- vm.c at an empty page directory, with one page free.
use hyu_3rd_1se.Prelude.{refl, true, [], ◌∷◌, arith}
use hyu_3rd_1se.Kalloc.{Kmem}
use hyu_3rd_1se.Kalloc.Pages.{IsFree}
use hyu_3rd_1se.Vm.{mappages}
use hyu_3rd_1se.Vm.Walk.{IsVm}
use hyu_3rd_1se.Vm.Pages.{MapsPages, mappages-MapsPages}

-- The page at 0x80101000 is free.
abbrev empty_memory : Kmem
empty_memory = record {
  memory = λ a. 0;
  kernel_end = 2148532240;
  freelist = 2148536320;
  use_lock = true;
}

empty_memory-IsFree : IsFree empty_memory (2148536320 ∷ [])
empty_memory-IsFree = record {
  chain = (refl, refl);
  pages = ((omega arith, refl), omega arith, omega arith);
}

-- The directory at 0x80102000.
empty_memory-IsVm : IsVm empty_memory 2148540416 (2148536320 ∷ [])
empty_memory-IsVm = record {
  free = empty_memory-IsFree;
  small = (omega arith, omega arith);
  dir_page = (omega arith, refl);
  dir_used = (λ e. absurd (omega (arith, e)), omega arith);
  table_page = λ i l p. absurd (ground (arith, p));
  table_used = λ i l p. absurd (ground (arith, p));
  table_not_dir = λ i l p. absurd (ground (arith, p));
  tables_apart = λ i j l m p q e. absurd (ground (arith, p));
}

-- Two pages and a half from the third page on, to the frames from the second on.
mappages-MapsPages_example :
    MapsPages empty_memory 2148540416 2 3 1 6 (mappages empty_memory 2148540416 8192 10000 4096 6)
mappages-MapsPages_example =
    mappages-MapsPages empty_memory 2148540416 8192 10000 2 2 1 6 (2148536320 ∷ [])
      empty_memory-IsVm (omega arith) (omega arith) refl refl (omega arith) (omega arith) refl

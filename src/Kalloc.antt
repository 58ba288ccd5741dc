-- ===== src/Kalloc.antt =====
-- OS/HW4/xv6-proj/kalloc.c: the allocator of physical pages. The free pages form a linked list that stands
-- in the pages themselves: the first word of a free page is the address of the next one.
pub mod Pages
use hyu_3rd_1se.Prelude.{
  ℕ, zero, suc, ◌+◌, ◌-◌, ◌%◌, Bool, true, false, not, ◌&&◌, ◌||◌, ◌==◌, ltb, leb, if◌then◌else◌,
  Result, ok, fault, panic, diverges, ◌>>=◌,
}
use hyu_3rd_1se.Proc.{u32}
use hyu_3rd_1se.Thread.{pgsize, pground_up, minus32, kernbase}

abbrev pub phystop : ℕ
phystop = 234881024

-- `memory` has the word at each address, `kernel_end` is the address of `end`.
pub record Kmem : Type 0 where
  pub memory : ℕ → ℕ
  pub kernel_end : ℕ
  pub freelist : ℕ
  pub use_lock : Bool

-- The tests of `kfree` of a page that may be freed.
abbrev pub may_free : Kmem → ℕ → Bool
may_free s v = v % pgsize == 0 && not (ltb v s.kernel_end) && not (leb phystop (minus32 v kernbase))

-- `memset` with the byte 1, and then the pointer to the next page.
abbrev pub fill_page : Kmem → ℕ → ℕ → ℕ
fill_page s v a =
    if a == v then s.freelist else if leb v a && ltb a (v + pgsize) then 16843009 else s.memory a

unfoldable pub kfree : ℕ → Kmem → Result Kmem
kfree v s =
    if may_free s v then ok (record s { memory = fill_page s v; freelist = v }) else fault panic

-- The loop of `freerange`.
unfoldable pub freerange_loop : ℕ → ℕ → ℕ → Kmem → Result Kmem
freerange_loop zero p vend s = fault diverges
freerange_loop (suc rounds) p vend s =
    let next = kfree p s >>= freerange_loop rounds (u32 (p + pgsize)) vend in
    if leb (u32 (p + pgsize)) vend then next else ok s

unfoldable pub freerange : ℕ → ℕ → ℕ → Kmem → Result Kmem
freerange rounds vstart vend s = freerange_loop rounds (pground_up vstart) vend s

unfoldable pub kinit1 : ℕ → ℕ → ℕ → Kmem → Result Kmem
kinit1 rounds vstart vend s = freerange rounds vstart vend (record s { use_lock = false })

unfoldable pub kinit2 : ℕ → ℕ → ℕ → Kmem → Result Kmem
kinit2 rounds vstart vend s =
    freerange rounds vstart vend s >>= λ s1. ok (record s1 { use_lock = true })

-- The address 0 is the null pointer.
unfoldable pub kalloc : Kmem → Kmem × ℕ
kalloc s = (if s.freelist == 0 then s else record s { freelist = s.memory s.freelist }, s.freelist)

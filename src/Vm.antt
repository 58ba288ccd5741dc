-- ===== src/Vm.antt =====
-- OS/HW4/xv6-proj/vm.c: page tables, in the memory of Kalloc. A page directory and a page table have 1024
-- words. What sets the registers of the processor is left out.
pub mod Table
pub mod User
pub mod Walk
pub mod Map
pub mod Pages
use hyu_3rd_1se.Prelude.Bits.{bit_or}
use hyu_3rd_1se.Prelude.{
  ℕ, zero, suc, ◌+◌, ◌-◌, ◌*◌, ◌/◌, ◌%◌, ◌^◌, Bool, true, false, not, ◌&&◌, ◌||◌, Option, none,
  some, List, [], ◌∷◌, ltb, leb, ◌==◌, if◌then◌else◌, update, Result, ok, fault, panic, diverges,
  null_deref, ◌>>=◌,
}
use hyu_3rd_1se.Proc.{u32}
use hyu_3rd_1se.Thread.{pgsize, pground_up, minus32, kernbase}
use hyu_3rd_1se.Kalloc.{Kmem, phystop, kalloc, kfree}

abbrev pub extmem : ℕ
extmem = 1048576

abbrev pub devspace : ℕ
devspace = 4261412864

-- The macros of mmu.h and memlayout.h.
abbrev pub pdx : ℕ → ℕ
pdx va = va / 4194304 % 1024

abbrev pub ptx : ℕ → ℕ
ptx va = va / 4096 % 1024

abbrev pub pground_down : ℕ → ℕ
pground_down a = a / 4096 * 4096

abbrev pub pte_addr : ℕ → ℕ
pte_addr pte = pte / 4096 * 4096

abbrev pub pte_flags : ℕ → ℕ
pte_flags pte = pte % 4096

-- `PTE_P`, `PTE_W` and `PTE_U` are the bits 0 to 2.
abbrev pub is_present : ℕ → Bool
is_present pte = pte % 2 == 1

abbrev pub is_user : ℕ → Bool
is_user pte = pte / 4 % 2 == 1

abbrev pub v2p : ℕ → ℕ
v2p a = minus32 a kernbase

abbrev pub p2v : ℕ → ℕ
p2v a = u32 (a + kernbase)

abbrev pub store : Kmem → ℕ → ℕ → Kmem
store s a w = record s { memory = update s.memory a w }

-- `memset` of a page with 0.
abbrev pub clear_page : Kmem → ℕ → Kmem
clear_page s v = record s { memory = λ a. if leb v a && ltb a (v + pgsize) then 0 else s.memory a }

-- `walkpgdir`: the address of the entry, none for the null pointer. A physical address of a page has no
-- bits below 4096, so that `|` adds the flags.
unfoldable pub walkpgdir : Kmem → ℕ → ℕ → Bool → Kmem × Option ℕ
walkpgdir s pgdir va alloc =
    let pde = pgdir + 4 * pdx va in
    let (s1, pgtab) = kalloc s in
    if is_present (s.memory pde)
    then (s, some (p2v (pte_addr (s.memory pde)) + 4 * ptx va))
    else if not alloc
    then (s, none)
    else if pgtab == 0
    then (s1, none)
    else (store (clear_page s1 pgtab) pde (v2p pgtab + 7), some (pgtab + 4 * ptx va))

-- `pa | perm | PTE_P`
abbrev pub make_pte : ℕ → ℕ → ℕ
make_pte pa perm = bit_or 32 (bit_or 32 pa perm) 1

-- `mappages` at the entry that `walkpgdir` gives; false stands for the return of -1.
unfoldable pub enter_page : ℕ → ℕ → Kmem × Option ℕ → Result (Kmem × Bool)
enter_page pa perm (s, none) = ok (s, false)
enter_page pa perm (s, some p) =
    if is_present (s.memory p) then fault panic else ok (store s p (make_pte pa perm), true)

-- One round of `mappages`.
unfoldable pub map_page : Kmem → ℕ → ℕ → ℕ → ℕ → Result (Kmem × Bool)
map_page s pgdir a pa perm = enter_page pa perm (walkpgdir s pgdir a true)

unfoldable pub mappages_loop : ℕ → Kmem → ℕ → ℕ → ℕ → ℕ → ℕ → Result (Kmem × Bool)
mappages_loop zero s pgdir a last pa perm = fault diverges
mappages_loop (suc rounds) s pgdir a last pa perm = map_page s pgdir a pa perm >>= λ (s1, done).
    let next = mappages_loop rounds s1 pgdir (u32 (a + pgsize)) last (u32 (pa + pgsize)) perm in
    if not done then ok (s1, false) else if a == last then ok (s1, true) else next

-- The loop needs no more rounds than there are pages.
unfoldable pub mappages : Kmem → ℕ → ℕ → ℕ → ℕ → ℕ → Result (Kmem × Bool)
mappages s pgdir va size pa perm =
    mappages_loop 1048576 s pgdir (pground_down va) (pground_down (minus32 (u32 (va + size)) 1)) pa
      perm

-- `kmap`: the virtual address, the physical start and end, and the flags. `data` is where the kernel's data
-- begin.
unfoldable pub kmap : ℕ → List (ℕ × ℕ × ℕ × ℕ)
kmap data_start =
    (kernbase, 0, extmem, 2)
    ∷ (kernbase + extmem, v2p (kernbase + extmem), v2p data_start, 0)
    ∷ (data_start, v2p data_start, phystop, 2)
    ∷ (devspace, devspace, 0, 2)
    ∷ []

unfoldable pub map_kernel : Kmem → ℕ → List (ℕ × ℕ × ℕ × ℕ) → Result (Kmem × Bool)
map_kernel s pgdir [] = ok (s, true)
map_kernel s pgdir ((virt, start, end, perm) ∷ ks) =
    mappages s pgdir virt (minus32 end start) start perm >>= λ (s1, done).
    let rest = map_kernel s1 pgdir ks in if done then rest else ok (s1, false)

-- `setupkvm`; none stands for the null pointer. `P2V(PHYSTOP)` is below `DEVSPACE`.
unfoldable pub setupkvm : ℕ → Kmem → Result (Kmem × Option ℕ)
setupkvm data_start s =
    let (s1, pgdir) = kalloc s in
    let mapped = map_kernel (clear_page s1 pgdir) pgdir (kmap data_start) >>= λ (s2, done).
    ok (s2, if done then some pgdir else none) in
    if pgdir == 0 then ok (s1, none) else mapped

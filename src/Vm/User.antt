-- ===== src/Vm/User.antt =====
-- The user part of a page table in vm.c. `loaduvm`, `inituvm` and `copyout` move single bytes and are left
-- out.
use hyu_3rd_1se.Prelude.{
  ℕ, zero, suc, ◌+◌, ◌-◌, ◌*◌, Bool, true, false, not, ◌&&◌, Option, none, some, ltb, leb, ◌==◌,
  if◌then◌else◌, for_result, Result, ok, fault, panic, diverges, null_deref, ◌>>=◌,
}
use hyu_3rd_1se.Proc.{u32}
use hyu_3rd_1se.Thread.{pgsize, pground_up, kernbase}
use hyu_3rd_1se.Kalloc.{Kmem, kalloc, kfree}
use hyu_3rd_1se.Vm.{
  pdx, pte_addr, pte_flags, is_present, is_user, v2p, p2v, store, clear_page, walkpgdir, mappages,
  setupkvm,
}

-- The loop of `deallocuvm` from address `a` on.
unfoldable pub dealloc_loop : ℕ → Kmem → ℕ → ℕ → ℕ → Result Kmem
dealloc_loop zero s pgdir a oldsz = fault diverges
dealloc_loop (suc rounds) s pgdir a oldsz =
    let (s1, pte) = walkpgdir s pgdir a false in
    let skip = dealloc_loop rounds s pgdir (u32 ((pdx a + 1) * 4194304)) oldsz in
    let next = dealloc_loop rounds s pgdir (u32 (a + pgsize)) oldsz in
    let unmap : ℕ → Result Kmem = λ p. kfree (p2v (pte_addr (s.memory p))) s >>= λ s2.
    dealloc_loop rounds (store s2 p 0) pgdir (u32 (a + pgsize)) oldsz in
    let entry : Result Kmem = elim pte [
      | none ↦ skip
      | some p ↦
          if not (is_present (s.memory p))
          then next
          else if pte_addr (s.memory p) == 0
          then fault panic
          else unmap p
    ] in
    if ltb a oldsz then entry else ok s

-- `deallocuvm`: there are at most 1048576 pages below `oldsz`.
unfoldable pub deallocuvm : Kmem → ℕ → ℕ → ℕ → Result (Kmem × ℕ)
deallocuvm s pgdir oldsz newsz =
    let freed = dealloc_loop 1048577 s pgdir (pground_up newsz) oldsz >>= λ s1. ok (s1, newsz) in
    if leb oldsz newsz then ok (s, oldsz) else freed

-- The loop of `allocuvm` from address `a` on; the result is the size, or 0.
unfoldable pub alloc_loop : ℕ → Kmem → ℕ → ℕ → ℕ → ℕ → Result (Kmem × ℕ)
alloc_loop zero s pgdir a oldsz newsz = fault diverges
alloc_loop (suc rounds) s pgdir a oldsz newsz =
    let (s1, mem) = kalloc s in
    let undo_all = deallocuvm s1 pgdir newsz oldsz >>= λ (s2, n). ok (s2, 0) in
    let page = mappages (clear_page s1 mem) pgdir a pgsize (v2p mem) 6 >>= λ (s2, done).
    let rest = alloc_loop rounds s2 pgdir (u32 (a + pgsize)) oldsz newsz in
    let undo = deallocuvm s2 pgdir newsz oldsz >>= λ (s3, n). kfree mem s3 >>= λ s4. ok (s4, 0) in
    if done then rest else undo in
    if not (ltb a newsz) then ok (s, newsz) else if mem == 0 then undo_all else page

unfoldable pub allocuvm : Kmem → ℕ → ℕ → ℕ → Result (Kmem × ℕ)
allocuvm s pgdir oldsz newsz =
    let grown = alloc_loop 524289 s pgdir (pground_up oldsz) oldsz newsz in
    if leb kernbase newsz then ok (s, 0) else if ltb newsz oldsz then ok (s, oldsz) else grown

-- The loop of `freevm` frees the page table of the directory entry `i`.
unfoldable pub free_table : ℕ → ℕ → Kmem → Result Kmem
free_table pgdir i s =
    let pde = s.memory (pgdir + 4 * i) in
    if is_present pde then kfree (p2v (pte_addr pde)) s else ok s

unfoldable pub freevm : Kmem → ℕ → Result Kmem
freevm s pgdir =
    let freed = deallocuvm s pgdir kernbase 0 >>= λ (s1, n).
    for_result 1024 0 (free_table pgdir) s1 >>= λ s2. kfree pgdir s2 in
    if pgdir == 0 then fault panic else freed

unfoldable pub clearpteu : Kmem → ℕ → ℕ → Result Kmem
clearpteu s pgdir uva =
    let (s1, pte) = walkpgdir s pgdir uva false in
    elim pte [
      | none ↦ fault panic
      | some p ↦ ok (store s p (if is_user (s.memory p) then s.memory p - 4 else s.memory p))
    ]

-- `memmove` of a page.
abbrev pub copy_page : Kmem → ℕ → ℕ → Kmem
copy_page s to from = record s {
  memory = λ a. if leb to a && ltb a (to + pgsize) then s.memory (from + (a - to)) else s.memory a;
}

-- The loop of `copyuvm` from address `i` on; false stands for the jump to `bad`.
unfoldable pub copy_loop : ℕ → Kmem → ℕ → ℕ → ℕ → ℕ → Result (Kmem × Bool)
copy_loop zero s pgdir d i sz = fault diverges
copy_loop (suc rounds) s pgdir d i sz =
    let (s0, pte) = walkpgdir s pgdir i false in
    let (s1, mem) = kalloc s in
    let copied : ℕ → Result (Kmem × Bool) = λ p.
      mappages (copy_page s1 mem (p2v (pte_addr (s.memory p)))) d i pgsize (v2p mem)
        (pte_flags (s.memory p))
      >>= λ (s2, done).
          let rest = copy_loop rounds s2 pgdir d (u32 (i + pgsize)) sz in
          if done then rest else ok (s2, false) in
    let page : Result (Kmem × Bool) = elim pte [
      | none ↦ fault panic
      | some p ↦
          if not (is_present (s.memory p))
          then fault panic
          else if mem == 0
          then ok (s1, false)
          else copied p
    ] in
    if ltb i sz then page else ok (s, true)

unfoldable pub copyuvm : ℕ → Kmem → ℕ → ℕ → Result (Kmem × Option ℕ)
copyuvm data_start s pgdir sz = setupkvm data_start s >>= λ (s1, d). elim d [
  | none ↦ ok (s1, none)
  | some d' ↦ copy_loop 1048577 s1 pgdir d' 0 sz >>= λ (s2, done).
      let freed = freevm s2 d' >>= λ s3. ok (s3, none) in if done then ok (s2, some d') else freed
]

-- `uva2ka`; none stands for the null pointer. Without a page table it reads through a null pointer.
unfoldable pub uva2ka : Kmem → ℕ → ℕ → Result (Option ℕ)
uva2ka s pgdir uva =
    let (s1, pte) = walkpgdir s pgdir uva false in
    elim pte [
      | none ↦ fault null_deref
      | some p ↦
          let page = some (p2v (pte_addr (s.memory p))) in
          ok (
            if not (is_present (s.memory p))
            then none
            else if not (is_user (s.memory p))
            then none
            else page)
    ]

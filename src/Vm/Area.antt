-- ===== src/Vm/Area.antt =====
-- A virtual memory area: `vmarea_t` of include/vm/vmmap.h, the page constants of include/mm/page.h
-- and include/mm/mm.h, and the pages that an area covers.
use usc_projects.Prelude.{
  ℕ, ◌+◌, ◌-◌, ◌/◌, ◌%◌, ◌^◌, ◌<◌, ◌≤◌, Bool, false, ◌&&◌, ◌||◌, Option, List, [], ◌∷◌, ltb, leb,
}

-- `vma_vmmap` says whether the pointer to the area's address space is set; `vma_obj` is the
-- identity of the memory object, `none` for NULL.
pub record Vmarea : Type 0 where
  pub vma_start : ℕ
  pub vma_end : ℕ
  pub vma_off : ℕ
  pub vma_prot : ℕ
  pub vma_flags : ℕ
  pub vma_vmmap : Bool
  pub vma_obj : Option ℕ

abbrev pub word : ℕ
word = 2 ^ 32

abbrev pub page_size : ℕ
page_size = 2 ^ 12

-- ADDR_TO_PN
unfoldable pub addr_to_pn : ℕ → ℕ
addr_to_pn a = a / page_size

abbrev pub user_mem_low : ℕ
user_mem_low = 0x00400000

abbrev pub user_mem_high : ℕ
user_mem_high = 0xc0000000

-- ADDR_TO_PN(USER_MEM_LOW) and ADDR_TO_PN(USER_MEM_HIGH)
abbrev pub page_low : ℕ
page_low = 0x400

abbrev pub page_high : ℕ
page_high = 0xc0000

-- `a + b` and `a - b` on uint32_t.
abbrev pub add32 : ℕ → ℕ → ℕ
add32 a b = (a + b) % word

abbrev pub sub32 : ℕ → ℕ → ℕ
sub32 a b = (a + word - b) % word

-- The page lies in the area.
abbrev pub covers : Vmarea → ℕ → Bool
covers a vfn = leb a.vma_start vfn && ltb vfn a.vma_end

-- The page lies in some area of the list: what an address space looks like from outside.
unfoldable pub mapped : List Vmarea → ℕ → Bool
mapped [] vfn = false
mapped (a ∷ rest) vfn = covers a vfn || mapped rest vfn

-- The area holds at least one page and lies in user memory.
pub record IsArea (a : Vmarea) : Type 0 where
  pub nonempty : a.vma_start < a.vma_end
  pub above : page_low ≤ a.vma_start
  pub below : a.vma_end ≤ page_high

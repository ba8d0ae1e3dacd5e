-- ===== src/Kernel/Elf.antt =====
-- kernel/elf.c: the header of a program, the pages of its segments and the loop that copies a
-- segment from the file. Numbers are 32-bit.
pub mod Copies
mod Tests
use ore_unix.Mm.Vmm.{Machine, virt_to_phys_pd, window_size}
use ore_unix.Common.{
  leb, Option, none, some, ℕ, zero, suc, ◌+◌, ◌-◌, ◌/◌, ◌%◌, ◌^◌, Bool, true, false, ◌&&◌, ◌||◌,
  not, List, [], ◌∷◌, ◌==◌, ltb, if◌then◌else◌, add32, sub32, page_size, align_down, align_up, min,
}

pub record Ehdr : Type 0 where
  pub e_magic : ℕ
  pub e_class : ℕ
  pub e_type : ℕ
  pub e_machine : ℕ

pub record Phdr : Type 0 where
  pub p_type : ℕ
  pub p_offset : ℕ
  pub p_vaddr : ℕ
  pub p_filesz : ℕ
  pub p_memsz : ℕ
  pub p_flags : ℕ

-- What is not refused with -ENOEXEC.
unfoldable pub is_program : Ehdr → Bool
is_program h = h.e_magic == 0x464C457F && h.e_class == 1 && h.e_type == 2 && h.e_machine == 3

-- The segments that are not skipped.
unfoldable pub is_loaded : Phdr → Bool
is_loaded p = p.p_type == 1 && not (p.p_memsz == 0)

abbrev pub first_page : Phdr → ℕ
first_page p = align_down p.p_vaddr page_size

abbrev pub end_page : Phdr → ℕ
end_page p = align_up (add32 p.p_vaddr p.p_memsz) page_size

unfoldable pub page_count : Phdr → ℕ
page_count p = sub32 (end_page p) (first_page p) / page_size

-- `load_base` and `load_end` after the segments.
unfoldable pub load_range : ℕ → ℕ → List Phdr → ℕ × ℕ
unfolding is_loaded
load_range base end [] = (base, end)
load_range base end (p ∷ ps) =
    let low = if base == 0 || ltb (first_page p) base then first_page p else base in
    let high = if ltb end (end_page p) then end_page p else end in
    let skipped = load_range base end ps in
    let rest = load_range low high ps in if is_loaded p then rest else skipped

-- One call of the file's `read`: the address in the new address space, the physical address that is
-- written, the position in the file and the number of bytes.
pub record Copy : Type 0 where
  pub to : ℕ
  pub pa : ℕ
  pub from : ℕ
  pub count : ℕ

abbrev pub and_copy : Copy → Option (List Copy) → Option (List Copy)
and_copy c none = none
and_copy c (some cs) = some (c ∷ cs)

-- The page of the translation, with the offset of the address; an address that is not mapped
-- translates to 0.
abbrev pub written_at : Machine → ℕ → ℕ → ℕ
written_at m pd to = align_down (virt_to_phys_pd m pd to) page_size + to % page_size

-- The loop `while (to_read > 0)` in the directory `pd`, for at most `n` passes; each copies a byte
-- at least. `none` is a page fault in the kernel, at a page that `phys_to_virt` does not reach.
-- What is read into the pages changes no page table.
unfoldable pub copies : ℕ → Machine → ℕ → ℕ → ℕ → ℕ → Option (List Copy)
copies zero m pd left to from = some []
copies (suc n) m pd left to from =
    let chunk = min left (page_size - to % page_size) in
    let pa = written_at m pd to in
    let rest = copies n m pd (left - chunk) (add32 to chunk) (from + chunk) in
    if left == 0
    then some []
    else if leb window_size pa
    then none
    else and_copy (record { to = to; pa = pa; from = from; count = chunk }) rest

-- A segment's copies; `p_filesz` passes are enough.
unfoldable pub segment_copies : Machine → ℕ → Phdr → Option (List Copy)
unfolding copies
segment_copies m pd p = copies p.p_filesz m pd p.p_filesz p.p_vaddr p.p_offset

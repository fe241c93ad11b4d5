-- ===== src/HugeArray.antt =====
-- memory/hugearray: an array of roots that is larger than the memory, of which the handler of SIGSEGV
-- (memory/hugearray/handler.c) fills the page that is read, with CalculateSqrts and the reads of
-- memory/hugearray/main.c. A page has 4096 bytes and a double 8; the root of a number is an argument.
pub mod Pages
mod Tests
use meph_i_semester_4_acos.Base.{
  ℕ, zero, suc, ◌+◌, ◌-◌, ◌*◌, ◌/◌, ◌%◌, Bool, true, false, not, ◌||◌, Option, none, some, ◌==◌,
  ltb, leb, if◌then◌else◌, update,
}

abbrev pub page_size : ℕ
page_size = 4096

-- `prev_page`, 0 for NULL; which pages of the array are mapped, by address; and the doubles in them
pub record Memory : Type 0 where
  pub prev_page : ℕ
  pub mapped : ℕ → Bool
  pub cell : ℕ → ℕ

-- `& ~(PAGE_SIZE - 1)`
abbrev pub page_of : ℕ → ℕ
page_of addr = addr - addr % page_size

module _ (sqrt : ℕ → ℕ) (sqrts max_sqrts : ℕ) where
  -- CalculateSqrts, with `n` doubles from index `i` on to go
  pub calculate_sqrts : ℕ → ℕ → ℕ → ℕ → (ℕ → ℕ) → ℕ → ℕ
  calculate_sqrts zero i page start cell = cell
  calculate_sqrts (suc n) i page start cell =
      calculate_sqrts n (i + 1) page start (update cell (page + 8 * i) (sqrt (start + i)))

  -- the munmap of the previous page
  abbrev pub drop_page : Memory → Memory
  drop_page m =
      if m.prev_page == 0 then m else record m { mapped = update m.mapped m.prev_page false }

  -- mmap of the page, and its doubles
  abbrev pub fill_page : ℕ → Memory → Memory
  fill_page page m = record {
    prev_page = page;
    mapped = update m.mapped page true;
    cell =
        calculate_sqrts (page_size / 8) 0 page ((page_size * (page / page_size) - sqrts) / 8)
          m.cell;
  }

  -- HandleSigsegv for a fault at `addr`, where `maps` is whether the two system calls succeed; `none` is
  -- exit(1)
  abbrev pub handle_sigsegv : Bool → ℕ → Memory → Option Memory
  handle_sigsegv maps addr m =
      if not maps
      then none
      else if ltb addr sqrts || leb (sqrts + 8 * max_sqrts) addr
      then none
      else some (fill_page (page_of addr) (drop_page m))

  abbrev pub load_cell : ℕ → Option Memory → Option (ℕ × Memory)
  load_cell addr none = none
  load_cell addr (some m) = some (m.cell addr, m)

  -- `SQRTS[pos]`: the load faults where its page is not mapped, and is done again after the handler
  abbrev pub read_sqrt : ℕ → Memory → Option (ℕ × Memory)
  read_sqrt pos m =
      let addr = sqrts + 8 * pos in
      load_cell addr (if m.mapped (page_of addr) then some m else handle_sigsegv true addr m)

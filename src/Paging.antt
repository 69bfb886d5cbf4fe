-- ===== src/Paging.antt =====
-- The page directories and tables of student-distrib/paging.c.
pub mod Task
pub mod Vidmap
use unix_like_os.Base.{
  ℕ, zero, suc, ◌+◌, ◌-◌, ◌*◌, ◌/◌, ◌%◌, ◌^◌, ◌<◌, ◌≤◌, min, ◌≡◌, ◌≢◌, ◌⊎◌, ◌↔◌, inl, inr, ap, ap₂,
  refl, sym, ◌∙◌, fun_ext, subst, Bool, true, false, Option, none, some, List, [], ◌∷◌, ◌++◌, map,
  reverse, append-nil, append_assoc, arith, Bytes, ◌==◌, ltb, leb, if◌then◌else◌, ◌>>=◌, add32,
  sub32, minus_one, slt, sext8, ◌||◌, ◌&&◌, not, Bool-cases, All, length, get_elem?, get_or, set,
  replicate, update, update_self, update-ne, length-append, length-set, get_elem?-eq-get_or,
  get_or-set_self, get_or-set_ne, get_or_ext, for_range, for_range_inv, for_range-update,
  bit_or-zero, bit_or_disjoint, all_below, all_below_sound, ==_iff, ==_refl, ==_ne, ltb-true,
  ltb-false,
}
use Prim.Native.Nat.{bit_or}

abbrev pub entries : ℕ
entries = 1024

abbrev pub attribute_0 : ℕ
attribute_0 = 0x6

abbrev pub attribute_1 : ℕ
attribute_1 = 0x7

abbrev pub kernel_page : ℕ
kernel_page = 0x00400183

abbrev pub user_page_8mb : ℕ
user_page_8mb = 0x00800087

abbrev pub four_mb : ℕ
four_mb = 0x400000

abbrev pub page_size_4kb : ℕ
page_size_4kb = 0x1000

abbrev pub vidmap_offset : ℕ
vidmap_offset = 0x21

abbrev pub program_offset : ℕ
program_offset = 0x20

abbrev pub video_mem : ℕ
video_mem = 0xB8000

abbrev pub vidmap_addr : ℕ
vidmap_addr = 0x084B8000

abbrev pub max_tasks : ℕ
max_tasks = 6

-- The tables, where the linker puts the two page tables, and the directory that CR3 holds.
pub record Paging : Type 0 where
  pub page_directories : ℕ → ℕ → ℕ
  pub page_table : ℕ → ℕ
  pub page_table_vidmap : ℕ → ℕ
  pub page_table_at : ℕ
  pub page_table_vidmap_at : ℕ
  pub cr3 : ℕ
  pub enabled : Bool

-- the loop that sets all entries of a directory to not present
unfoldable pub clear_entries : (ℕ → ℕ) → ℕ → ℕ
clear_entries = for_range entries 0 (λ i d. update d i attribute_0)

-- `page_directory_entry[VIDEO_OFFSET]` and `[KERNEL_OFFSET]` of a cleared directory
unfoldable pub kernel_entries : Paging → (ℕ → ℕ) → ℕ → ℕ
unfolding clear_entries
kernel_entries g d =
    update (update (clear_entries d) 0 (bit_or g.page_table_at attribute_1)) 1 kernel_page

unfoldable pub paging_init : Paging → Paging
unfolding kernel_entries
paging_init g = record g {
  page_table =
      for_range entries 0
        (λ j t. update t j (
          if j * page_size_4kb == video_mem
          then bit_or (j * page_size_4kb) attribute_1
          else bit_or (j * page_size_4kb) attribute_1))
        g.page_table;
  page_directories = update g.page_directories 0 (kernel_entries g (g.page_directories 0));
  cr3 = 0;
  enabled = true;
}

-- `new_task_pd`: the status, and the tables after the call
unfoldable pub new_task_pd : ℕ → Paging → ℕ × Paging
unfolding kernel_entries
new_task_pd id g = if ltb max_tasks id then (minus_one, g) else (
  0,
  record g {
    page_directories = update g.page_directories id (
        update (kernel_entries g (g.page_directories id)) program_offset
          ((user_page_8mb + id * four_mb) % 2 ^ 32));
    cr3 = id;
  },
)

-- `create_vidmap`, with the index `program_id-1` of the directory of the process that runs
unfoldable pub create_vidmap : ℕ → Paging → Paging
create_vidmap dir g = record g {
  page_table_vidmap =
      for_range entries 0
        (λ j t. update t j (
          if j * page_size_4kb == video_mem
          then bit_or video_mem attribute_1
          else bit_or video_mem attribute_0))
        g.page_table_vidmap;
  page_directories =
      update g.page_directories dir
        (update (g.page_directories dir) vidmap_offset (bit_or g.page_table_vidmap_at attribute_1));
}

-- How the processor reads the tables: bit 0 of an entry is "present", bit 7 of a directory entry
-- makes it a page of 4 MB, and the higher bits are the address of the page or table.
abbrev pub table_of : Paging → ℕ → Option (ℕ → ℕ)
table_of g at =
    if at == g.page_table_at
    then some g.page_table
    else if at == g.page_table_vidmap_at
    then some g.page_table_vidmap
    else none

abbrev pub through_table : (ℕ → ℕ) → ℕ → Option ℕ
through_table t v =
    let pte = t (v / 4096 % 1024) in
    if pte % 2 == 0 then none else some (pte / 4096 * 4096 + v % 4096)

abbrev pub through_entry : Paging → ℕ → ℕ → Option ℕ
through_entry g pde v =
    if pde % 2 == 0
    then none
    else if pde / 128 % 2 == 1
    then some (pde / four_mb * four_mb + v % four_mb)
    else table_of g (pde / 4096 * 4096) >>= λ t. through_table t v

unfoldable pub translate : Paging → ℕ → Option ℕ
translate g v = through_entry g (g.page_directories g.cr3 (v / four_mb)) v

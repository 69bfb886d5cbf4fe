-- ===== src/Proc/Stack.antt =====
-- The kernel stacks that `get_kernel_stack_ptr` of student-distrib/pcb.c hands out.
use unix_like_os.Base.{ℕ, ◌-◌, ◌<◌, ◌≤◌, arith}
use unix_like_os.Proc.{get_kernel_stack_ptr}

-- The stacks of two different processes 1 to 6 share no byte of their 8 KB, and each lies in the
-- upper half of the 4 MB kernel page at 0x400000.
pub get_kernel_stack_ptr_disjoint :
    (i j : ℕ)
    → 1 ≤ i
    → i < j
    → j ≤ 6
    → (get_kernel_stack_ptr j ≤ get_kernel_stack_ptr i - 0x2000)
      × (get_kernel_stack_ptr i ≤ 0x800000)
      × (0x600000 ≤ get_kernel_stack_ptr j - 0x2000)
unfolding get_kernel_stack_ptr
get_kernel_stack_ptr_disjoint i j a b c = omega arith

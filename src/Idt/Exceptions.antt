-- ===== src/Idt/Exceptions.antt =====
-- The handlers of the exceptions in student-distrib/idt.c: each writes its message and a picture, and
-- then loops with the interrupts off.
pub mod Faults
use unix_like_os.Base.{
  ℕ, zero, suc, ◌+◌, ◌-◌, ◌*◌, ◌/◌, ◌%◌, ◌^◌, ◌<◌, ◌≤◌, min, ◌≡◌, ◌≢◌, ◌⊎◌, ◌↔◌, inl, inr, ap, ap₂,
  refl, sym, ◌∙◌, fun_ext, subst, Bool, true, false, Option, none, some, List, [], ◌∷◌, ◌++◌, map,
  reverse, append-nil, append_assoc, arith, Bytes, ◌==◌, ltb, leb, if◌then◌else◌, ◌>>=◌, add32,
  sub32, minus_one, slt, sext8, ◌||◌, ◌&&◌, not, Bool-cases, All, length, get_elem?, get_or, set,
  replicate, update, update_self, update-ne, length-append, length-set, get_elem?-eq-get_or,
  get_or-set_self, get_or-set_ne, get_or_ext, for_range, for_range_inv, for_range-update,
  bit_or-zero, bit_or_disjoint, all_below, all_below_sound, ==_iff, ==_refl, ==_ne, ltb-true,
  ltb-false,
}
use unix_like_os.Base.Strings.{chars}
use unix_like_os.Terminal.{Terminal}
use unix_like_os.Klib.Format.{Frame, printf}

-- calls of `printf` with a literal each, one after the other
unfoldable pub print_lines : Frame → List Bytes → Terminal → Option Terminal
print_lines f [] t = some t
print_lines f (text ∷ lines) t = printf f (text ++ (0 ∷ [])) t >>= λ (n, t1). print_lines f lines t1

-- the literals of `exception0` to `exception18`
abbrev pub messages : List Bytes
messages =
    chars "exception: divide by 0 \n"
    ∷ chars "exception: debug \n"
    ∷ chars "exception:non-maskable interrupt\n"
    ∷ chars "exception: breakpoint\n "
    ∷ chars "exception: overflow \n"
    ∷ chars "exception: bound range exceeded \n"
    ∷ chars "exception: invalid opcode \n"
    ∷ chars "exception: device not available \n"
    ∷ chars "exception: double fault \n"
    ∷ chars "exception: coprocessor segment overrun \n"
    ∷ chars "exception: invalid TSS \n"
    ∷ chars "exception: segment not present \n"
    ∷ chars "exception: stack segement fault \n"
    ∷ chars "general proctection fault\n"
    ∷ chars "exception: page fault  - HEY TA: you look good today!\n"
    ∷ chars "exception: Unknown Interrupt Exception \n"
    ∷ chars "exception:x87 floating point \n"
    ∷ chars "exception: alignment check \n"
    ∷ chars "exception: machine check \n"
    ∷ []

-- the literals of `print_skull`
abbrev pub skull : List Bytes
skull =
    chars "                                     uuuuuuu\n"
    ∷ chars "                                 uu$$$$$$$$$$$uu\n"
    ∷ chars "                              uu$$$$$$$$$$$$$$$$$uu\n"
    ∷ chars "                             u$$$$$$$$$$$$$$$$$$$$$u\n"
    ∷ chars "                            u$$$$$$$$$$$$$$$$$$$$$$$u\n"
    ∷ chars "                           u$$$$$$:   :$$$:   :$$$$$$u\n"
    ∷ chars "                           :$$$$:      u$u       $$$$:\n"
    ∷ chars "                            $$$u       u$u       u$$$\n"
    ∷ chars "                            $$$u      u$$$u      u$$$\n"
    ∷ chars "                             :$$$$uu$$$   $$$uu$$$$:\n"
    ∷ chars "                              :$$$$$$$:   :$$$$$$$:\n"
    ∷ chars "                                u$$$$$$$u$$$$$$$u\n"
    ∷ chars "                                 u$:$:$:$:$:$:$u\n"
    ∷ chars "                      uuu        $$u$ $ $ $ $u$$       uuu\n"
    ∷ chars "                     u$$$$        $$$$$u$u$u$$$       u$$$$\n"
    ∷ chars "                      $$$$$uu      :$$$$$$$$$:     uu$$$$$$\n"
    ∷ chars "                    u$$$$$$$$$$$uu    ::::    uuuu$$$$$$$$$$\n"
    ∷ chars "                    $$$$:::$$$$$$$$$$uuu   uu$$$$$$$$$:::$$$:\n"
    ∷ chars "                     :::      ::$$$$$$$$$$$uu ::$:::\n"
    ∷ chars "                               uuuu $$$$$$$$$$uuu\n"
    ∷ chars "                      u$$$uuu$$$$$$$$$uu ::$$$$$$$$$$$uuu$$$\n"
    ∷ chars "                      $$$$$$$$$$:::           ::$$$$$$$$$$$:\n"
    ∷ chars "                       $$$$:                        :$$$$$:\n"
    ∷ []

unfoldable pub print_skull : Frame → Terminal → Option Terminal
unfolding print_lines
print_skull f t = print_lines f skull t

-- `cli()`
unfoldable pub cli : Terminal → Terminal
cli t = record t { interrupts = false }

-- `exception0` to `exception18`: the terminal in which the handler loops
unfoldable pub exception : Frame → ℕ → Terminal → Option Terminal
unfolding print_skull cli print_lines
exception f n t = print_lines f (get_or messages n [] ∷ []) (cli t) >>= λ t1. print_skull f t1

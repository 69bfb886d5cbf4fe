-- ===== src/Idt/Gates.antt =====
-- What stands in the table after `idt_init` of student-distrib/idt.c.
use unix_like_os.Base.{
  ℕ, ◌+◌, ◌*◌, ◌^◌, ◌<◌, ◌≤◌, ◌≡◌, inl, inr, refl, ◌∙◌, subst, Option, none, some, arith, ◌==◌, ltb,
  if◌then◌else◌, Bool-cases, set, update, update_self, update-ne, for_range_inv, ==_ne,
}
use unix_like_os.Base.{ℕ_discrete}
use unix_like_os.Idt.{
  Gate, Handlers, keyboard_port, rtc_port, pit_port, syscall_port, user_level, kernel_cs,
  exceptions, set_idt_entry, first_gate, set_exceptions, set_devices, idt_init,
}

-- the address that the processor jumps to
abbrev pub target : Gate → ℕ
target g = g.offset_31_16 * 2 ^ 16 + g.offset_15_00

-- a 32-bit gate in the kernel's code segment that is present
abbrev pub Live : Gate → Type 0
Live g =
    (g.seg_selector ≡ kernel_cs)
    × (g.present ≡ 1)
    × (g.size ≡ 1)
    × (g.reserved0 ≡ 0)
    × (g.reserved1 ≡ 1)
    × (g.reserved2 ≡ 1)
    × (g.reserved4 ≡ 0)

-- A vector's gate leads to a handler, as a trap gate or as an interrupt gate, which clears the interrupt
-- flag, and may be called from level `dpl` on.
pub record Leads (g : Gate) (handler trap dpl : ℕ) : Type 0 where
  pub live : Live g
  pub to : target g ≡ handler
  pub kind : g.reserved3 ≡ trap
  pub level : g.dpl ≡ dpl

-- what `idt_set` keeps through the calls
record Kept (g : Gate) : Type 0 where
  live : Live g
  level : g.dpl ≡ 0

set_idt_entry-Leads :
    (g : Gate) (handler : ℕ)
    → Live g
    → handler < 2 ^ 32
    → Leads (set_idt_entry g handler) handler g.reserved3 g.dpl
unfolding set_idt_entry
set_idt_entry-Leads g handler l lt = record {
  live = l;
  to = omega arith;
  kind = refl;
  level = refl;
}

-- what the loop has done below `i`
abbrev Upto : Handlers → (ℕ → Gate) → ℕ → Gate × (ℕ → Gate) → Type 0
Upto h idt i (set, idt') =
    Kept set
    × ((k : ℕ) → k < i → Leads (idt' k) (h.idt_func k) 1 0)
    × ((k : ℕ) → i ≤ k → idt' k ≡ idt k)

set_exceptions-Upto :
    (h : Handlers) (set : Gate) (idt : ℕ → Gate)
    → ((k : ℕ) → h.idt_func k < 2 ^ 32)
    → Kept set
    → Upto h idt exceptions (set_exceptions h (set, idt))
unfolding set_exceptions set_idt_entry
set_exceptions-Upto h set idt lt kept =
    for_range_inv (Upto h idt)
      (λ i (idt_set, idt).
        let set = set_idt_entry (record idt_set { reserved3 = 1 }) (h.idt_func i) in
        (set, update idt i set))
      exceptions 0 exceptions (set, idt) refl
      (λ k (g, idt') lo hi (kept', below, above).
        let set' = set_idt_entry (record g { reserved3 = 1 }) (h.idt_func k) in
        let live : Live (record g { reserved3 = 1 }) = kept'.live in
        let leads : Leads set' (h.idt_func k) 1 0 =
          subst (Leads set' (h.idt_func k) 1) kept'.level
            (set_idt_entry-Leads (record g { reserved3 = 1 }) (h.idt_func k) live (lt k)) in
        (
          record { live = kept'.live; level = kept'.level },
          λ j lo'. elim (ℕ_discrete j k) [
            | yes e ↦ rw (e, update_self idt' k set') leads
            | no d ↦ rw (update-ne idt' k j set' d) (below j (omega arith))
          ],
          λ j hi'. update-ne idt' k j set' (λ e. omega (arith, e)) ∙ above j (omega arith),
        ))
      (kept, λ k h. absurd (omega arith), λ k h. refl)

first_gate-Kept : (junk : Gate) → Kept (first_gate junk)
unfolding first_gate
first_gate-Kept junk = record { live = (refl, refl, refl, refl, refl, refl, refl); level = refl }

-- Where a vector leads: the handler, 1 for a trap gate, and the level that may call it.
abbrev pub route : Handlers → ℕ → Option (ℕ × ℕ × ℕ)
route h v =
    if ltb v exceptions
    then some (h.idt_func v, 1, 0)
    else if v == keyboard_port
    then some (h.keyboard_wrapper, 0, 0)
    else if v == rtc_port
    then some (h.rtc_handler, 0, 0)
    else if v == pit_port
    then some (h.scheduler_wrapper, 0, 0)
    else if v == syscall_port
    then some (h.syscall_handler, 1, user_level)
    else none

abbrev pub Routed : Gate → Gate → Option (ℕ × ℕ × ℕ) → Type 0
Routed g old none = g ≡ old
Routed g old (some (handler, trap, dpl)) = Leads g handler trap dpl

-- Addresses are 32-bit numbers.
pub record Addresses (h : Handlers) : Type 0 where
  pub funcs : (k : ℕ) → h.idt_func k < 2 ^ 32
  pub keyboard : h.keyboard_wrapper < 2 ^ 32
  pub rtc : h.rtc_handler < 2 ^ 32
  pub pit : h.scheduler_wrapper < 2 ^ 32
  pub syscall : h.syscall_handler < 2 ^ 32

-- a device's gate: an interrupt gate of level 0
device-Leads :
    (g : Gate) (a : ℕ) → Kept g → a < 2 ^ 32 → g.reserved3 ≡ 0 → Leads (set_idt_entry g a) a 0 0
device-Leads g a kept lt int =
    subst (λ t. Leads (set_idt_entry g a) a t 0) int
      (subst (Leads (set_idt_entry g a) a g.reserved3) kept.level
        (set_idt_entry-Leads g a kept.live lt))

set_devices-Routed :
    (h : Handlers) (set0 : Gate) (idt idt0 : ℕ → Gate) (v : ℕ)
    → Addresses h
    → Upto h idt exceptions (set0, idt0)
    → Routed (set_devices h (set0, idt0) v) (idt v) (route h v)
unfolding set_devices set_idt_entry
set_devices-Routed h set0 idt idt0 v a (kept, below, above) =
    let set1 = set_idt_entry (record set0 { reserved3 = 0 }) h.keyboard_wrapper in
    let set2 = set_idt_entry set1 h.rtc_handler in
    let set3 = set_idt_entry set2 h.scheduler_wrapper in
    let set4 = record set3 { reserved3 = 1; dpl = user_level } in
    let kept0 : Kept (record set0 { reserved3 = 0 }) = record {
      live = kept.live;
      level = kept.level;
    } in
    let kept1 : Kept set1 = record { live = kept.live; level = kept.level } in
    let kept2 : Kept set2 = record { live = kept.live; level = kept.level } in
    elim (ℕ_discrete v syscall_port) [
      | yes e ↦ rw e (set_idt_entry-Leads set4 h.syscall_handler kept.live a.syscall)
      | no s ↦ elim (ℕ_discrete v pit_port) [
        | yes e ↦ rw e (device-Leads set2 h.scheduler_wrapper kept2 a.pit refl)
        | no p ↦ elim (ℕ_discrete v rtc_port) [
          | yes e ↦ rw e (device-Leads set1 h.rtc_handler kept1 a.rtc refl)
          | no r ↦ elim (ℕ_discrete v keyboard_port) [
            | yes e ↦ rw e (
                device-Leads (record set0 { reserved3 = 0 }) h.keyboard_wrapper kept0 a.keyboard
                  refl)
            | no k ↦
                rw
                  (
                    ==_ne v syscall_port s,
                    ==_ne v pit_port p,
                    ==_ne v rtc_port r,
                    ==_ne v keyboard_port k,
                  )
                  (elim (Bool-cases (ltb v exceptions)) [
                    | inl e ↦ rw e (below v (ground (arith, e)))
                    | inr e ↦ rw e (above v (ground (arith, e)))
                  ])
          ]
        ]
      ]
    ]

-- After `idt_init` each vector that the kernel handles leads to its handler through a present 32-bit gate
-- in the kernel's code segment: the exceptions through trap gates and the devices through interrupt gates, all
-- of level 0, and the system call through a trap gate that level 3 may call. Every other gate is as before.
pub idt_init-Routed :
    (h : Handlers) (junk : Gate) (idt : ℕ → Gate) (v : ℕ)
    → Addresses h
    → Routed (idt_init h junk idt v) (idt v) (route h v)
unfolding idt_init
idt_init-Routed h junk idt v a =
    let upto = set_exceptions-Upto h (first_gate junk) idt a.funcs (first_gate-Kept junk) in
    let s = set_exceptions h (first_gate junk, idt) in set_devices-Routed h s.0 idt s.1 v a upto

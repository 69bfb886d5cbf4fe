-- ===== src/Klib/Memory/Move.antt =====
-- `memcpy` and `memmove` of student-distrib/lib.c against a copy that reads every byte before it writes.
use unix_like_os.Base.{
  ℕ, zero, suc, ◌+◌, ◌*◌, ◌/◌, ◌%◌, ◌^◌, ◌<◌, ◌≡◌, inl, inr, refl, sym, ◌∙◌, subst, arith, ◌==◌,
  ltb, leb, add32, sub32, Bool-cases, update,
}
use Prim.Native.Nat.{bit_and}
use native.Mathlib.Nat.{mul-suc, add_comm}
use unix_like_os.Klib.Memory.{
  Memory, Registers, move_bytes, rep_movs, rep_movsb_down, copy_top, copy_bottom, memcpy, memmove,
}
use unix_like_os.Klib.Memory.Set.{and_three}
use unix_like_os.Klib.Memory.Region.{
  Copied, UpOk, Copied-none, Copied-single, Copied-join, Copied-join_down,
}

-- Neither region wraps.
abbrev pub Fits : ℕ → ℕ → ℕ → Type 0
Fits d s n = (d + n < 2 ^ 32) × (s + n < 2 ^ 32)

copy_bottom-Copied :
    (n d s : ℕ) (mem : Memory) → Fits d s n → UpOk d s n → Copied d s n mem (copy_bottom n d s mem)
unfolding copy_bottom
copy_bottom-Copied zero d s mem h up = Copied-none d s mem
copy_bottom-Copied (suc n) d s mem h up =
    let e1 : add32 d 1 ≡ d + 1 = omega arith in
    let e2 : add32 s 1 ≡ s + 1 = omega arith in
    rw (e1, e2)
      (Copied-join d s 1 n (suc n) mem _ _ (omega arith) (d + 1) (s + 1) refl refl up
        (Copied-single d s mem)
        (copy_bottom-Copied n (d + 1) (s + 1) _ (omega arith) (omega arith)))

-- where a copy stands
record MovedTo (d s n : ℕ) (mem : Memory) (r : Registers) : Type 0 where
  at : r.edi ≡ d + n
  from : r.esi ≡ s + n
  moved : Copied d s n mem r.mem

rep_movs-MovedTo :
    (w n t d s : ℕ) (mem : Memory)
    → t ≡ w * n
    → Fits d s t
    → UpOk d s t
    → MovedTo d s t mem (rep_movs w n d s mem)
unfolding rep_movs
rep_movs-MovedTo w zero t d s mem e h up =
    let z : t ≡ 0 = omega arith in
    record { at = omega arith; from = omega arith; moved = rw z (Copied-none d s mem) }
rep_movs-MovedTo w (suc n) t d s mem e h up =
    let e0 : t ≡ w + w * n = e ∙ mul-suc w n ∙ add_comm (w * n) w in
    let e1 : add32 d w ≡ d + w = omega arith in
    let e2 : add32 s w ≡ s + w = omega arith in
    let r =
      rep_movs-MovedTo w n (w * n) (d + w) (s + w) (move_bytes w d s mem) refl (omega arith)
        (omega arith) in
    rw (e1, e2)
      (record {
        at = omega (arith, r.at);
        from = omega (arith, r.from);
        moved =
            Copied-join d s w (w * n) t mem _ _ e0 (d + w) (s + w) refl refl up (λ k. refl) r.moved;
      })

-- the loop at the top: what is left, and the bytes that it has copied
record TopMoved (n d s : ℕ) (mem : Memory) (r : Registers) : Type 0 where
  done : ℕ
  left : done + r.ecx ≡ n
  moved : MovedTo d s done mem r

TopMoved-none :
    (n d s : ℕ) (mem : Memory) → TopMoved n d s mem record { ecx = n; edi = d; esi = s; mem = mem }
TopMoved-none n d s mem = record {
  done = 0;
  left = omega arith;
  moved = record { at = omega arith; from = omega arith; moved = Copied-none d s mem };
}

copy_top-TopMoved :
    (n d s : ℕ) (mem : Memory) → Fits d s n → UpOk d s n → TopMoved n d s mem (copy_top n d s mem)
unfolding copy_top
copy_top-TopMoved zero d s mem h up = TopMoved-none 0 d s mem
copy_top-TopMoved (suc n) d s mem h up = elim (Bool-cases (bit_and 3 d == 0)) [
  | inl e ↦ rw e (TopMoved-none (suc n) d s mem)
  | inr e ↦
      let e1 : add32 d 1 ≡ d + 1 = omega arith in
      let e2 : add32 s 1 ≡ s + 1 = omega arith in
      let r =
        copy_top-TopMoved n (d + 1) (s + 1) (update mem d (mem s)) (omega arith) (omega arith) in
      rw (e, e1, e2)
        (record {
          done = suc r.done;
          left = omega (arith, r.left);
          moved = record {
            at = omega (arith, r.moved.at);
            from = omega (arith, r.moved.from);
            moved =
                Copied-join d s 1 r.done (suc r.done) mem _ _ (omega arith) (d + 1) (s + 1) refl
                  refl (omega (arith, r.left)) (Copied-single d s mem) r.moved.moved;
          };
        })
]

-- the dwords and the bytes that are left
rest-Copied :
    (n d s : ℕ) (mem : Memory)
    → Fits d s n
    → UpOk d s n
    → let middle = rep_movs 4 (n / 4) d s mem in
      Copied d s n mem (copy_bottom (bit_and 3 n) middle.edi middle.esi middle.mem)
rest-Copied n d s mem h up =
    let q = n / 4 in
    let r = rep_movs-MovedTo 4 q (4 * q) d s mem refl (omega arith) (omega arith) in
    rw (and_three n) (
      Copied-join d s (4 * q) (n % 4) n mem _ _ (omega arith) _ _ r.at r.from up r.moved (
        copy_bottom-Copied (n % 4) _ _ _ (omega (arith, r.at, r.from))
          (omega (arith, r.at, r.from))))

-- `memcpy` leaves at `d` the `n` bytes that were at `s` and changes no other byte, for regions that end
-- below 2 ^ 32 and do not overlap, or overlap with `d` at or below `s`.
pub memcpy-Copied :
    (d s n : ℕ) (mem : Memory) → Fits d s n → UpOk d s n → Copied d s n mem (memcpy d s n mem)
unfolding memcpy
memcpy-Copied d s n mem h up =
    let t = copy_top-TopMoved n d s mem h up in
    let top = copy_top n d s mem in
    let v = t.moved in
    elim (Bool-cases (top.ecx == 0)) [
      | inl e ↦
          let all : t.done ≡ n = ground (arith, e, t.left) in
          rw e (subst (λ j. Copied d s j mem top.mem) all v.moved)
      | inr e ↦ rw e (
          Copied-join d s t.done top.ecx n mem top.mem _ (sym t.left) _ _ v.at v.from up v.moved (
            rest-Copied top.ecx top.edi top.esi top.mem (omega (arith, v.at, v.from, t.left))
              (omega (arith, v.at, v.from, t.left))))
    ]

rep_movsb_down-Copied :
    (n d s edi esi : ℕ) (mem : Memory)
    → edi ≡ sub32 (add32 d n) 1
    → esi ≡ sub32 (add32 s n) 1
    → Fits d s n
    → s < d
    → Copied d s n mem (rep_movsb_down n edi esi mem)
unfolding rep_movsb_down
rep_movsb_down-Copied zero d s edi esi mem e1 e2 h lt = Copied-none d s mem
rep_movsb_down-Copied (suc n) d s edi esi mem e1 e2 h lt =
    let d1 : edi ≡ d + n = omega arith in
    let s1 : esi ≡ s + n = omega arith in
    rw (d1, s1)
      (Copied-join_down d s n 1 (suc n) mem _ _ (omega arith) lt (Copied-single (d + n) (s + n) mem)
        (rep_movsb_down-Copied n d s _ _ _ (omega arith) (omega arith) (omega arith) lt))

-- `memmove` leaves at `d` the `n` bytes that were at `s` and changes no other byte, however the two
-- regions overlap, when they end below 2 ^ 32. It returns with the direction flag set exactly when `s` is below `d`.
pub memmove-Copied :
    (d s n : ℕ) (mem : Memory)
    → Fits d s n
    → let (flag, mem') = memmove d s n mem in Copied d s n mem mem' × (flag ≡ ltb s d)
unfolding memmove
memmove-Copied d s n mem h = elim (Bool-cases (leb d s)) [
  | inl e ↦
      let r = rep_movs-MovedTo 1 n n d s mem (omega arith) h (ground (arith, e)) in
      rw e (r.moved, ground (arith, e))
  | inr e ↦
      rw e (rep_movsb_down-Copied n d s _ _ mem refl refl h (ground (arith, e)), ground (arith, e))
]

-- ===== src/Klib/Memory/Set.antt =====
-- `memset` of student-distrib/lib.c against a loop over single bytes.
use unix_like_os.Base.{
  ℕ, zero, suc, ◌+◌, ◌*◌, ◌/◌, ◌%◌, ◌^◌, ◌<◌, min, ◌≡◌, inl, inr, refl, sym, Bool, true, arith,
  ◌==◌, ltb, leb, if◌then◌else◌, add32, ◌&&◌, Bool-cases, update, all_below, all_below_sound,
}
use Prim.Native.Nat.{bit_and, bit_and-bitwise, min}
use unix_like_os.Klib.Memory.{
  Memory, Registers, store_bytes, rep_stos, set_top, set_bottom, four_times, memset,
}

-- The bytes from `s` on up to `s + n` are `v`, and the others are as before.
abbrev pub Filled : ℕ → ℕ → ℕ → Memory → Memory → Type 0
Filled v s n mem mem' = (k : ℕ) → mem' k ≡ (if leb s k && ltb k (s + n) then v else mem k)

Filled-none : (v s : ℕ) (mem : Memory) → Filled v s 0 mem mem
Filled-none v s mem k = ground arith

Filled-single : (v s : ℕ) (mem : Memory) → Filled v s 1 mem (update mem s v)
Filled-single v s mem k = ground arith

Filled-join :
    (v s a t b n : ℕ) (m m1 m2 : Memory)
    → t ≡ s + a
    → n ≡ a + b
    → Filled v s a m m1
    → Filled v t b m1 m2
    → Filled v s n m m2
Filled-join v s a t b n m m1 m2 e f h k i = ground (arith, h i, k i)

set_bottom-Filled :
    (v n s : ℕ) (mem : Memory) → s + n < 2 ^ 32 → Filled v s n mem (set_bottom v n s mem)
unfolding set_bottom
set_bottom-Filled v zero s mem h = Filled-none v s mem
set_bottom-Filled v (suc n) s mem h =
    let e : add32 s 1 ≡ s + 1 = omega arith in
    rw e (
      Filled-join v s 1 (s + 1) n (suc n) mem _ _ refl (omega arith) (Filled-single v s mem)
        (set_bottom-Filled v n (s + 1) (update mem s v) (omega arith)))

-- the loop at the top: what is left, and the bytes that it has set
record TopDone (v n s : ℕ) (mem : Memory) (r : Registers) : Type 0 where
  done : ℕ
  left : done + r.ecx ≡ n
  at : r.edi ≡ s + done
  filled : Filled v s done mem r.mem

set_top-TopDone :
    (v n s : ℕ) (mem : Memory) → s + n < 2 ^ 32 → TopDone v n s mem (set_top v n s mem)
unfolding set_top
set_top-TopDone v zero s mem h = record {
  done = 0;
  left = refl;
  at = omega arith;
  filled = Filled-none v s mem;
}
set_top-TopDone v (suc n) s mem h = elim (Bool-cases (bit_and 3 s == 0)) [
  | inl e ↦
      rw e (record { done = 0; left = omega arith; at = omega arith; filled = Filled-none v s mem })
  | inr e ↦
      let next : add32 s 1 ≡ s + 1 = omega arith in
      let r = set_top-TopDone v n (s + 1) (update mem s v) (omega arith) in
      rw (e, next)
        (record {
          done = suc r.done;
          left = omega (arith, r.left);
          at = omega (arith, r.at);
          filled =
              Filled-join v s 1 (s + 1) r.done (suc r.done) mem (update mem s v) _ refl
                (omega arith) (Filled-single v s mem) r.filled;
        })
]

-- the four bytes of `eax` are the byte that is set
same_bytes : ℕ → ℕ → Bool
same_bytes v x =
    (x % 256 == v)
    && (x / 256 % 256 == v)
    && (x / 256 / 256 % 256 == v)
    && (x / 256 / 256 / 256 % 256 == v)

four_table : all_below 256 (λ v. same_bytes v (four_times v)) ≡ true
unfolding all_below same_bytes
four_table = refl

abbrev FourBytes : ℕ → ℕ → Type 0
FourBytes v x =
    (x % 256 ≡ v)
    × (x / 256 % 256 ≡ v)
    × (x / 256 / 256 % 256 ≡ v)
    × (x / 256 / 256 / 256 % 256 ≡ v)

same_bytes-FourBytes : (v x : ℕ) → same_bytes v x ≡ true → FourBytes v x
unfolding same_bytes
same_bytes-FourBytes v x h = ground (arith, h)

four_times-FourBytes : (v : ℕ) → v < 256 → FourBytes v (four_times v)
four_times-FourBytes v h = same_bytes-FourBytes v _ (all_below_sound 256 _ v four_table h)

store_bytes-Filled :
    (v x s : ℕ) (mem : Memory)
    → s + 4 < 2 ^ 32
    → FourBytes v x
    → Filled v s 4 mem (store_bytes 4 x s mem)
unfolding store_bytes
store_bytes-Filled v x s mem h (a, b, c, d) =
    let e1 : add32 s 1 ≡ s + 1 = omega arith in
    let e2 : add32 (s + 1) 1 ≡ s + 2 = omega arith in
    let e3 : add32 (s + 2) 1 ≡ s + 3 = omega arith in
    rw (e1, e2, e3, a, b, c, d)
      (Filled-join v s 1 (s + 1) 3 4 mem _ _ refl refl (Filled-single v s mem) (
        Filled-join v (s + 1) 1 (s + 2) 2 3 _ _ _ (omega arith) refl (Filled-single v (s + 1) _) (
          Filled-join v (s + 2) 1 (s + 3) 1 2 _ _ _ (omega arith) refl (Filled-single v (s + 2) _)
            (Filled-single v (s + 3) _))))

rep_stos-Filled :
    (v x n s : ℕ) (mem : Memory)
    → s + 4 * n < 2 ^ 32
    → FourBytes v x
    → ((rep_stos 4 x n s mem).0 ≡ s + 4 * n) × Filled v s (4 * n) mem (rep_stos 4 x n s mem).1
unfolding rep_stos
rep_stos-Filled v x zero s mem h b = (omega arith, Filled-none v s mem)
rep_stos-Filled v x (suc n) s mem h b =
    let e : add32 s 4 ≡ s + 4 = omega arith in
    let (at, rest) = rep_stos-Filled v x n (s + 4) (store_bytes 4 x s mem) (omega arith) b in
    rw (rep_stos, e)
      (
        omega (arith, at),
        Filled-join v s 4 (s + 4) (4 * n) (4 * suc n) mem _ _ refl (omega arith)
            (store_bytes-Filled v x s mem (omega arith) b) rest,
      )

pub and_three : (n : ℕ) → bit_and 3 n ≡ n % 4
and_three n =
    let e : bit_and 3 n ≡ (0 * 2 + min 1 (n / 2 % 2)) * 2 + min 1 (n % 2) = bit_and-bitwise 3 n in
    omega (arith, e)

-- the dwords and the bytes that are left
rest-Filled :
    (v x n s : ℕ) (mem : Memory)
    → s + n < 2 ^ 32
    → FourBytes v x
    → let (edi, middle) = rep_stos 4 x (n / 4) s mem in
      Filled v s n mem (set_bottom v (bit_and 3 n) edi middle)
rest-Filled v x n s mem h b =
    let (at, filled) = rep_stos-Filled v x (n / 4) s mem (omega arith) b in
    let (edi, middle) = rep_stos 4 x (n / 4) s mem in
    rw (and_three n, at)
      (Filled-join v s (4 * (n / 4)) (s + 4 * (n / 4)) (n % 4) n mem _ _ refl (omega arith) filled
        (set_bottom-Filled v (n % 4) (s + 4 * (n / 4)) _ (omega arith)))

-- `memset` sets the `n` bytes from `s` on to the low byte of `c`, wherever `s` lies, and no other byte, for
-- a region that ends below 2 ^ 32.
pub memset-Filled :
    (s c n : ℕ) (mem : Memory) → s + n < 2 ^ 32 → Filled (c % 256) s n mem (memset s c n mem)
unfolding memset
memset-Filled s c n mem h =
    let v = c % 256 in
    let x = four_times v in
    let b = four_times-FourBytes v (omega arith) in
    let t = set_top-TopDone v n s mem h in
    let top = set_top v n s mem in
    rw b.0 (elim (Bool-cases (top.ecx == 0)) [
      | inl e ↦ λ k. rw e (ground (arith, e, t.left, t.filled k))
      | inr e ↦ rw e (
          Filled-join v s t.done top.edi top.ecx n mem top.mem _ t.at (sym t.left) t.filled
            (rest-Filled v x top.ecx top.edi top.mem (omega (arith, t.at, t.left)) b))
    ])

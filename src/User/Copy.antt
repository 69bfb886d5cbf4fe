-- ===== src/User/Copy.antt =====
-- What the loop of cat in syscalls/ece391cat.c writes.
use unix_like_os.Base.{
  ℕ, zero, suc, ◌<◌, ◌≤◌, ◌≡◌, ◌≢◌, inl, inr, ap, ap₂, refl, sym, ◌∙◌, false, some, [], ◌++◌, arith,
  Bytes, ◌==◌, minus_one, Bool-cases, length, length-append, ==_iff, ==_ne,
}
use unix_like_os.User.Buffers.{first_bytes-agree}
use unix_like_os.User.{Calls, fill, first_bytes, read_size, cat_loop}

first_bytes-fill :
    (bytes : Bytes) (buf : ℕ → ℕ) → first_bytes (length bytes) (fill 0 bytes buf) ≡ bytes
first_bytes-fill bytes buf = first_bytes-agree bytes (fill 0 bytes buf) (λ k h. ground (arith, h))

-- What cat expects of the calls, in the states that are `Good`: `left` is what a descriptor has still to give,
-- `screen` what the screen shows, and `shows` what bytes do to it when they are written one after the other. A read
-- gives the next bytes, at most as many as asked for, and none only at the end; a write shows them all.
pub record Lawful {W S : Type 0} (c : Calls W) (fd : ℕ) (Good : W → Type 0) (left : W → Bytes)
    (screen : W → S) (shows : Bytes → S → S) : Type 0 where
  pub read_good : (w : W) → Good w → Good (c.read fd read_size w).2
  pub read_count : (w : W) → Good w → (c.read fd read_size w).0 ≡ length (c.read fd read_size w).1
  pub read_size_ok : (w : W) → Good w → (c.read fd read_size w).0 ≤ read_size
  pub read_left :
      (w : W) → Good w → left w ≡ (c.read fd read_size w).1 ++ left (c.read fd read_size w).2
  pub read_end : (w : W) → Good w → (c.read fd read_size w).0 ≡ 0 → left w ≡ []
  pub read_screen : (w : W) → Good w → screen (c.read fd read_size w).2 ≡ screen w
  pub write_good :
      (bytes : Bytes) (w : W) → length bytes ≤ read_size → Good w → Good (c.write 1 bytes w).1
  pub write_ok :
      (bytes : Bytes) (w : W)
      → length bytes ≤ read_size
      → Good w
      → (c.write 1 bytes w).0 ≢ minus_one
  pub write_screen :
      (bytes : Bytes) (w : W)
      → length bytes ≤ read_size
      → Good w
      → screen (c.write 1 bytes w).1 ≡ shows bytes (screen w)
  pub write_left :
      (bytes : Bytes) (w : W)
      → length bytes ≤ read_size
      → Good w
      → left (c.write 1 bytes w).1 ≡ left w
  pub shows_none : (s : S) → shows [] s ≡ s
  pub shows_append : (a b : Bytes) (s : S) → shows (a ++ b) s ≡ shows b (shows a s)

module _ {W S : Type 0} (c : Calls W) (fd : ℕ) (Good : W → Type 0) (left : W → Bytes)
    (screen : W → S) (shows : Bytes → S → S) (law : Lawful c fd Good left screen shows) where
  -- From a good state the loop of cat ends, after fewer rounds than there are bytes left and one more, in a good
  -- state with the status 0, and the screen is as if just these bytes had been written to it one after the other.
  pub cat_loop_copies :
      (rounds : ℕ) (buf : ℕ → ℕ) (w : W)
      → Good w
      → length (left w) < rounds
      → (w1 : W) × (cat_loop c rounds fd buf w ≡ some (0, w1))
        × Good w1
        × (screen w1 ≡ shows (left w) (screen w))
  unfolding cat_loop
  cat_loop_copies zero buf w g h = absurd (omega (arith, h))
  cat_loop_copies (suc rounds) buf w g h =
      let (cnt, bytes, w1) = c.read fd read_size w in
      let g1 : Good w1 = law.read_good w g in
      elim (Bool-cases (cnt == 0)) [
        | inl e ↦
            let at_end : left w ≡ [] = law.read_end w g ((==_iff cnt 0).0 e) in
            (
              w1,
              rw e refl,
              g1,
              law.read_screen w g
                  ∙ sym (ap (λ l. shows l (screen w)) at_end ∙ law.shows_none (screen w)),
            )
        | inr e ↦
            let shown : first_bytes cnt (fill 0 bytes buf) ≡ bytes =
              ap (λ n. first_bytes n (fill 0 bytes buf)) (law.read_count w g)
              ∙ first_bytes-fill bytes buf in
            let small : length bytes ≤ read_size =
              omega (arith, law.read_count w g, law.read_size_ok w g) in
            let w2 = (c.write 1 bytes w1).1 in
            let fits : (cnt == minus_one) ≡ false =
              ==_ne cnt minus_one (λ z. omega (arith, z, law.read_size_ok w g)) in
            let written : ((c.write 1 bytes w1).0 == minus_one) ≡ false =
              ==_ne _ minus_one (law.write_ok bytes w1 small g1) in
            let len = ap length (law.read_left w g) ∙ length-append bytes (left w1) in
            let kept = law.write_left bytes w1 small g1 in
            let some_byte : cnt ≢ 0 = ground (arith, e) in
            let fewer : length (left w2) < rounds =
              omega (arith, ap length kept, len, h, law.read_count w g, some_byte) in
            let (w3, done, g3, all) =
              cat_loop_copies rounds (fill 0 bytes buf) w2 (law.write_good bytes w1 small g1)
                fewer in
            (
              w3,
              rw (e, fits, shown, written) done,
              g3,
              all
                  ∙ ap₂ shows kept
                      (law.write_screen bytes w1 small g1 ∙ ap (shows bytes) (law.read_screen w g))
                  ∙ sym (law.shows_append bytes (left w1) (screen w))
                  ∙ ap (λ l. shows l (screen w)) (sym (law.read_left w g)),
            )
      ]

-- ===== src/User/Buffers.antt =====
-- The first bytes of a buffer, and the bytes of a file behind a position.
use unix_like_os.Base.{
  ℕ, zero, suc, ◌+◌, ◌-◌, ◌<◌, ◌≤◌, ◌≡◌, ap, ap₂, refl, sym, ◌∙◌, fun_ext, [], ◌∷◌, ◌++◌, arith,
  Bytes, length, get_or,
}
use unix_like_os.Fs.{Image, file_length, file_byte}
use unix_like_os.User.{first_bytes}

pub first_bytes-agree :
    (bytes : Bytes) (buf : ℕ → ℕ)
    → ((k : ℕ) → k < length bytes → buf k ≡ get_or bytes k 0)
    → first_bytes (length bytes) buf ≡ bytes
unfolding first_bytes
first_bytes-agree [] buf h = refl
first_bytes-agree (b ∷ bytes) buf h = ap₂ ◌∷◌ (h 0 (omega arith)) (
    first_bytes-agree bytes (λ k. buf (k + 1))
      (λ k lt. h (k + 1) (omega arith) ∙ ap (λ j. get_or (b ∷ bytes) j 0) (one_more k)))
  where
    one_more : (k : ℕ) → k + 1 ≡ suc k
    one_more k = omega arith

-- the bytes of a file from a position on
unfoldable pub file_from : Image → ℕ → ℕ → Bytes
unfolding first_bytes
file_from img inode pos =
    first_bytes (file_length img inode - pos) (λ k. file_byte img inode (pos + k))

pub length-first_bytes : (n : ℕ) (f : ℕ → ℕ) → length (first_bytes n f) ≡ n
unfolding first_bytes
length-first_bytes zero f = refl
length-first_bytes (suc n) f = omega (arith, length-first_bytes n (λ k. f (k + 1)))

pub first_bytes_ext :
    (n : ℕ) (f g : ℕ → ℕ) → ((k : ℕ) → k < n → f k ≡ g k) → first_bytes n f ≡ first_bytes n g
unfolding first_bytes
first_bytes_ext zero f g h = refl
first_bytes_ext (suc n) f g h =
    ap₂ ◌∷◌ (h 0 (omega arith))
      (first_bytes_ext n (λ k. f (k + 1)) (λ k. g (k + 1)) (λ k lt. h (k + 1) (omega arith)))

pub first_bytes-add :
    (m n : ℕ) (f : ℕ → ℕ)
    → first_bytes (m + n) f ≡ first_bytes m f ++ first_bytes n (λ k. f (m + k))
unfolding first_bytes
first_bytes-add zero n f =
    let same : f ≡ (λ (k : ℕ). f (0 + k)) = fun_ext (λ k. ap f (omega arith)) in
    let len : 0 + n ≡ n = omega arith in rw len (ap (first_bytes n) same)
first_bytes-add (suc m) n f =
    let len : suc m + n ≡ suc (m + n) = omega arith in
    let same : (λ (k : ℕ). f (m + k + 1)) ≡ (λ (k : ℕ). f (suc m + k)) =
      fun_ext (λ k. ap f (omega arith)) in
    ap (λ k. first_bytes k f) len
    ∙ ap (λ l. f 0 ∷ l)
        (first_bytes-add m n (λ k. f (k + 1))
          ∙ ap (λ g. first_bytes m (λ k. f (k + 1)) ++ first_bytes n g) same)

-- What a read of `r` bytes leaves of a file.
pub file_from-read :
    (img : Image) (inode pos r : ℕ) (out : ℕ → ℕ)
    → r ≤ file_length img inode - pos
    → ((k : ℕ) → k < r → out k ≡ file_byte img inode (pos + k))
    → file_from img inode pos ≡ first_bytes r out ++ file_from img inode (pos + r)
unfolding file_from
file_from-read img inode pos r out le copied =
    let f = λ (k : ℕ). file_byte img inode (pos + k) in
    let rest = file_length img inode - (pos + r) in
    let len : file_length img inode - pos ≡ r + rest = omega arith in
    let same : (λ (k : ℕ). f (r + k)) ≡ (λ (k : ℕ). file_byte img inode (pos + r + k)) =
      fun_ext (λ k. ap (file_byte img inode) (omega arith)) in
    ap (λ n. first_bytes n f) len
    ∙ first_bytes-add r rest f
    ∙ ap₂ ◌++◌ (first_bytes_ext r f out (λ k lt. sym (copied k lt))) (ap (first_bytes rest) same)

pub file_from-end :
    (img : Image) (inode pos : ℕ) → file_length img inode ≤ pos → file_from img inode pos ≡ []
unfolding file_from first_bytes
file_from-end img inode pos le =
    let none_left : file_length img inode - pos ≡ 0 = omega arith in rw none_left refl

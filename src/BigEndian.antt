-- ===== src/BigEndian.antt =====
-- Unsigned integers in big-endian order: what the `write_uint` and `read_uint` functions of
-- src/libipset/bdd/write.c and read.c have in the file.
use libcorkipset.Prelude.{
  ℕ, zero, suc, ◌+◌, ◌*◌, ◌/◌, ◌%◌, ◌^◌, ◌<◌, ◌≡◌, refl, ◌∙◌, List, [], ◌∷◌, ◌++◌, arith, length,
  length-append,
}

-- The last `k` bytes of a number.
unfoldable pub big_endian : ℕ → ℕ → List ℕ
big_endian zero v = []
big_endian (suc k) v = big_endian k (v / 256) ++ v % 256 ∷ []

unfoldable pub of_bytes : ℕ → List ℕ → ℕ
of_bytes acc [] = acc
of_bytes acc (b ∷ bs) = of_bytes (acc * 256 + b) bs

pub length-big_endian : (k v : ℕ) → length (big_endian k v) ≡ k
unfolding big_endian
length-big_endian zero v = refl
length-big_endian (suc k) v =
    omega
      (arith, length-append (big_endian k (v / 256)) (v % 256 ∷ []), length-big_endian k (v / 256))

of_bytes-snoc :
    (acc : ℕ) (bs : List ℕ) (b : ℕ) → of_bytes acc (bs ++ b ∷ []) ≡ of_bytes acc bs * 256 + b
unfolding of_bytes
of_bytes-snoc acc [] b = refl
of_bytes-snoc acc (c ∷ bs) b = of_bytes-snoc (acc * 256 + c) bs b

pow_suc : (k : ℕ) → 256 ^ suc k ≡ 256 * 256 ^ k
pow_suc k = grind arith

-- A number that fits in `k` bytes is read back from its `k` bytes in big-endian order.
pub of_bytes-big_endian : (k v : ℕ) → v < 256 ^ k → of_bytes 0 (big_endian k v) ≡ v
unfolding big_endian of_bytes
of_bytes-big_endian zero v h = omega arith
of_bytes-big_endian (suc k) v h =
    let fits : v / 256 < 256 ^ k = omega (arith, pow_suc k) in
    of_bytes-snoc 0 (big_endian k (v / 256)) (v % 256)
    ∙ omega (arith, of_bytes-big_endian k (v / 256) fits)

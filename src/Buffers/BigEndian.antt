-- ===== src/Buffers/BigEndian.antt =====
-- The network byte order meets the interface.
use mqtt_async_embedded.Prelude.{
  ℕ, zero, suc, ◌+◌, ◌*◌, ◌/◌, ◌%◌, ◌<◌, ◌≡◌, refl, sym, ap, ◌∙◌, List, [], ◌∷◌, ◌++◌, length, take,
  drop, length-append, take-length-append, drop-length-append, arith,
}
use mqtt_async_embedded.Buffers.{Buffers, size}

unfoldable pub put_number : ℕ → ℕ → List ℕ
put_number zero v = []
put_number (suc w) v = put_number w (v / 256) ++ (v % 256 ∷ [])

unfoldable pub read_number : ℕ → List ℕ → ℕ
read_number acc [] = acc
read_number acc (x ∷ xs) = read_number (acc * 256 + x) xs

unfoldable pub get_number : ℕ → List ℕ → ℕ × List ℕ
get_number w xs = (read_number 0 (take w xs), drop w xs)

pub length-put_number : (w v : ℕ) → length (put_number w v) ≡ w
unfolding put_number
length-put_number zero v = refl
length-put_number (suc w) v = omega (
  arith,
  length-append {0} (put_number w (v / 256)) (v % 256 ∷ []),
  length-put_number w (v / 256),
)

read_number-append :
    (acc : ℕ) (xs : List ℕ) (x : ℕ)
    → read_number acc (xs ++ (x ∷ [])) ≡ read_number acc xs * 256 + x
unfolding read_number
read_number-append acc [] x = refl
read_number-append acc (y ∷ xs) x = read_number-append (acc * 256 + y) xs x

read_number-put_number : (w v : ℕ) → v < size w → read_number 0 (put_number w v) ≡ v
unfolding put_number read_number size
read_number-put_number zero v h = omega arith
read_number-put_number (suc w) v h = omega (
  arith,
  read_number-append 0 (put_number w (v / 256)) (v % 256),
  read_number-put_number w (v / 256) (omega arith),
)

pub get_number-put_number :
    (w v : ℕ) (rest : List ℕ) → v < size w → get_number w (put_number w v ++ rest) ≡ (v, rest)
unfolding get_number
get_number-put_number w v rest h =
    let bytes = put_number w v in
    let front : take w (bytes ++ rest) ≡ bytes =
      ap (λ n. take n (bytes ++ rest)) (sym (length-put_number w v))
      ∙ take-length-append bytes rest in
    let behind : drop w (bytes ++ rest) ≡ rest =
      ap (λ n. drop n (bytes ++ rest)) (sym (length-put_number w v))
      ∙ drop-length-append bytes rest in
    rw (front, behind, read_number-put_number w v h) refl

unfoldable pub big_endian : Buffers
unfolding put_number get_number
big_endian = record {
  put = put_number;
  get = get_number;
  length-put = length-put_number;
  get-put = get_number-put_number;
}

-- ===== src/Options/Address.antt =====
-- The addresses that `from_uri` reads.
use mqtt_async_embedded.Prelude.{
  ℕ, ◌+◌, ◌*◌, ◌-◌, ◌≤◌, ◌<◌, ◌≡◌, refl, ap, true, false, Option, none, some, List, [], ◌∷◌, ◌++◌,
  ltb, lt→ltb, ltb→lt, ltb→le, Bool-cases, inl, inr, ◌==◌, if◌then◌else◌, arith, All,
}
use mqtt_async_embedded.Topics.{contains}
use mqtt_async_embedded.Options.{
  client_options, invalid_port, parsed, rejected, split_once, parse_digits, parse_u16, with_port,
  parse_host_port, strip_prefix, mqtt_scheme, Features, from_uri, is_digit_byte,
}

-- Digits as bytes, and their value behind the digits that were read before.
abbrev pub in_ascii : List ℕ → List ℕ
in_ascii [] = []
in_ascii (d ∷ ds) = (48 + d) ∷ in_ascii ds

abbrev pub decimal : ℕ → List ℕ → ℕ
decimal value [] = value
decimal value (d ∷ ds) = decimal (value * 10 + d) ds

abbrev pub AreDigits : List ℕ → Type 0
AreDigits ds = All (λ d. d < 10) ds

decimal_grows : (value : ℕ) (ds : List ℕ) → value ≤ decimal value ds
decimal_grows value [] = omega arith
decimal_grows value (d ∷ ds) = omega (arith, decimal_grows (value * 10 + d) ds)

-- The number, or nothing if it is no u16.
abbrev pub as_u16 : ℕ → Option ℕ
as_u16 n = if ltb 65535 n then none else some n

parse_digits-in_ascii :
    (value : ℕ) (ds : List ℕ)
    → value ≤ 65535
    → AreDigits ds
    → parse_digits value (in_ascii ds) ≡ as_u16 (decimal value ds)
unfolding parse_digits
parse_digits-in_ascii value [] small digits = ground arith
parse_digits-in_ascii value (d ∷ ds) small (digit, digits) =
    let same : 48 + d - 48 ≡ d = omega arith in
    let is_digit : is_digit_byte (48 + d) ≡ true = ground arith in
    rw (is_digit, same)
      (elim (Bool-cases (ltb 65535 (value * 10 + d))) [
        | inl large ↦
            let grows = decimal_grows (value * 10 + d) ds in
            let over =
              lt→ltb 65535 (decimal (value * 10 + d) ds)
                (omega (arith, ltb→lt 65535 (value * 10 + d) large)) in
            rw (large, over) refl
        | inr fits ↦
            rw fits (
              parse_digits-in_ascii (value * 10 + d) ds (ltb→le 65535 (value * 10 + d) fits) digits)
      ])

split_once-host :
    (c : ℕ) (host rest : List ℕ)
    → contains host c ≡ false
    → split_once c (host ++ (c ∷ rest)) ≡ some (host, rest)
unfolding split_once contains
split_once-host c [] rest h = ground arith
split_once-host c (x ∷ xs) rest h =
    let other : (x == c) ≡ false = ground (arith, h) in
    let later : contains xs c ≡ false = ground (arith, h) in
    rw (other, split_once-host c xs rest later) refl

parse_u16-in_ascii :
    (d : ℕ) (ds : List ℕ)
    → AreDigits (d ∷ ds)
    → parse_u16 (in_ascii (d ∷ ds)) ≡ as_u16 (decimal 0 (d ∷ ds))
unfolding parse_u16
parse_u16-in_ascii d [] digits = parse_digits-in_ascii 0 (d ∷ []) (omega arith) digits
parse_u16-in_ascii d (e ∷ ds) (digit, digits) =
    let no_sign : (48 + d == b'+') ≡ false = ground arith in
    rw no_sign (parse_digits-in_ascii 0 (d ∷ e ∷ ds) (omega arith) (digit, digits))

strip_prefix-append : (p s : List ℕ) → strip_prefix p (p ++ s) ≡ some s
unfolding strip_prefix
strip_prefix-append [] s = refl
strip_prefix-append (x ∷ p) s =
    let same : (x == x) ≡ true = ground arith in rw (same, strip_prefix-append p s) refl

parse_host_port-host :
    (host : List ℕ) (d : ℕ) (ds : List ℕ) (default_port : ℕ)
    → contains host b':' ≡ false
    → AreDigits (d ∷ ds)
    → parse_host_port (host ++ (b':' ∷ in_ascii (d ∷ ds))) default_port
      ≡ with_port host (in_ascii (d ∷ ds)) (as_u16 (decimal 0 (d ∷ ds)))
unfolding parse_host_port
parse_host_port-host host d ds default_port no_colon digits =
    rw (split_once-host b':' host (in_ascii (d ∷ ds)) no_colon, parse_host_port)
      (ap (with_port host (in_ascii (d ∷ ds))) (parse_u16-in_ascii d ds digits))

-- The address `mqtt://`, a host without a colon, a colon and digits gives the options for the host and
-- the number that the digits write, if it is a u16, whatever features are built in; otherwise the port
-- is refused.
pub from_uri-mqtt_scheme :
    (features : Features) (client_id host : List ℕ) (d : ℕ) (ds : List ℕ)
    → contains host b':' ≡ false
    → AreDigits (d ∷ ds)
    → from_uri features client_id (mqtt_scheme ++ (host ++ (b':' ∷ in_ascii (d ∷ ds)))) ≡ (
        if ltb 65535 (decimal 0 (d ∷ ds))
        then rejected (invalid_port (in_ascii (d ∷ ds)))
        else parsed (client_options client_id host (decimal 0 (d ∷ ds))))
unfolding from_uri client_options
from_uri-mqtt_scheme features client_id host d ds no_colon digits =
    let address = host ++ (b':' ∷ in_ascii (d ∷ ds)) in
    rw
      (
        strip_prefix-append mqtt_scheme address,
        from_uri,
        parse_host_port-host host d ds 1883 no_colon digits,
      )
      (elim (Bool-cases (ltb 65535 (decimal 0 (d ∷ ds)))) [
        | inl large ↦ rw large refl
        | inr fits ↦ rw fits refl
      ])

-- ===== src/Codec/Connect/Flags.antt =====
-- The flags of CONNECT, as the encoder sets and the decoder tests them.
use mqtt_async_embedded.Prelude.{ℕ, ◌≡◌, arith, Bool, true, false, Option, none, some}
use mqtt_async_embedded.Types.{QoS, at_most_once, at_least_once, exactly_once}
use mqtt_async_embedded.Codec.Connect.{connect_flags, has_bit, will_qos, is_some}

-- The level of service and `retain` of a will that is not there read as 0 and false.
abbrev pub qos_of : Option (QoS × Bool) → QoS
qos_of none = at_most_once
qos_of (some (qos, retain)) = qos

abbrev pub retain_of : Option (QoS × Bool) → Bool
retain_of none = false
retain_of (some (qos, retain)) = retain

-- The bits are the arguments.
pub record ReadsFlags (clean : Bool) (will : Option (QoS × Bool)) (password username : Bool)
    (flags : ℕ) : Type 0 where
  pub clean_bit : has_bit 0x02 flags ≡ clean
  pub will_bit : has_bit 0x04 flags ≡ is_some will
  pub qos_bits : will_qos flags ≡ qos_of will
  pub retain_bit : has_bit 0x20 flags ≡ retain_of will
  pub password_bit : has_bit 0x40 flags ≡ password
  pub username_bit : has_bit 0x80 flags ≡ username

-- Each flag that the CONNECT decoder reads is the one that the encoder set.
pub connect_flags-ReadsFlags :
    (c : Bool) (w : Option (QoS × Bool)) (p u : Bool) → ReadsFlags c w p u (connect_flags c w p u)
unfolding connect_flags
connect_flags-ReadsFlags true none p u = ground arith
connect_flags-ReadsFlags true (some (at_most_once, true)) p u = ground arith
connect_flags-ReadsFlags true (some (at_most_once, false)) p u = ground arith
connect_flags-ReadsFlags true (some (at_least_once, true)) p u = ground arith
connect_flags-ReadsFlags true (some (at_least_once, false)) p u = ground arith
connect_flags-ReadsFlags true (some (exactly_once, true)) p u = ground arith
connect_flags-ReadsFlags true (some (exactly_once, false)) p u = ground arith
connect_flags-ReadsFlags false none p u = ground arith
connect_flags-ReadsFlags false (some (at_most_once, true)) p u = ground arith
connect_flags-ReadsFlags false (some (at_most_once, false)) p u = ground arith
connect_flags-ReadsFlags false (some (at_least_once, true)) p u = ground arith
connect_flags-ReadsFlags false (some (at_least_once, false)) p u = ground arith
connect_flags-ReadsFlags false (some (exactly_once, true)) p u = ground arith
connect_flags-ReadsFlags false (some (exactly_once, false)) p u = ground arith

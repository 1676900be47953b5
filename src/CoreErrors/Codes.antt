-- ===== src/CoreErrors/Codes.antt =====
-- The reason codes: the table of the conversion against the discriminants of the declaration.
use mqtt_async_embedded.Prelude.{ℕ, ◌≡◌, arith}
use mqtt_async_embedded.CoreErrors.{reason_code_from, discriminant}

-- The reason code of a byte has that byte as its discriminant.
pub discriminant-reason_code_from : (val : ℕ) → discriminant (reason_code_from val) ≡ val
unfolding discriminant reason_code_from
discriminant-reason_code_from val = ground arith

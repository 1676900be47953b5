-- ===== src/Exec.antt =====
-- Results, errors and the state monad of the packet library (crates/mqtt-packet/src/error.rs).
-- A Rust function that returns `Result<A, PacketError>` and mutates its arguments is an action
-- `Exec S A`: it gives the state back on every path, also beside an error. `panic` is the abort of
-- an out of range slice or index.
use mqtt_async_embedded.Prelude.{ℕ, ◌≡◌, refl, Bool, true, false, if◌then◌else◌, Option, none, some}

pub data PacketError : Type 0 where
  buffer_too_small incomplete_packet malformed_packet : PacketError
  invalid_packet_type : ℕ → PacketError
  invalid_utf8_string too_many_properties batch_capacity_exceeded : PacketError
  payload_too_large unsupported_qos : PacketError

pub data Result {ℓ} (A : Type ℓ) : Type ℓ where
  ok : A → Result A
  err : PacketError → Result A
  panic : Result A

abbrev pub Exec : Type 0 → Type 0 → Type 0
Exec S A = S → Result A × S

module _ {S A : Type 0} where
  abbrev pub pure : A → Exec S A
  pure a s = (ok a, s)

  abbrev pub raise : PacketError → Exec S A
  raise e s = (err e, s)

  abbrev pub abort : Exec S A
  abort s = (panic, s)

  -- `o.ok_or(e)?`
  abbrev pub ok_or : Option A → PacketError → Exec S A
  ok_or none e s = (err e, s)
  ok_or (some a) e s = (ok a, s)

  -- `slice[i]`, which panics out of range
  abbrev pub index : Option A → Exec S A
  index none s = (panic, s)
  index (some a) s = (ok a, s)

abbrev pub get : {S : Type 0} → Exec S S
get s = (ok s, s)

abbrev pub put : {S : Type 0} → S → Exec S (Unit {0})
put s' s = (ok tt, s')

module _ {S A B : Type 0} where
  abbrev pub continue : Result A × S → (A → Exec S B) → Result B × S
  continue (ok a, s) f = f a s
  continue (err e, s) f = (err e, s)
  continue (panic, s) f = (panic, s)

  infixl 5 ◌>>=◌ ◌>>◌
  unfoldable pub ◌>>=◌ : Exec S A → (A → Exec S B) → Exec S B
  ◌>>=◌ m f s = continue (m s) f

  unfoldable pub ◌>>◌ : Exec S A → Exec S B → Exec S B
  unfolding ◌>>=◌
  m >> n = m >>= λ _. n

  -- A step that succeeds hands its value and its state on.
  pub >>=_ok :
      (m : Exec S A) (f : A → Exec S B) (s : S) {a : A} {s' : S}
      → m s ≡ (ok a, s')
      → (m >>= f) s ≡ f a s'
  unfolding ◌>>=◌
  >>=_ok m f s e = rw e

  pub >>_ok :
      (m : Exec S A) (n : Exec S B) (s : S) {a : A} {s' : S} → m s ≡ (ok a, s') → (m >> n) s ≡ n s'
  unfolding ◌>>◌
  >>_ok m n s e = rw e

  -- An error goes up.
  pub >>=_err :
      (m : Exec S A) (f : A → Exec S B) (s : S) {e : PacketError}
      → (m s).0 ≡ err e
      → ((m >>= f) s).0 ≡ err e
  unfolding ◌>>=◌
  >>=_err m f s h = continue_err (m s) f h
    where
      continue_err :
          (r : Result A × S) (f : A → Exec S B) {e : PacketError}
          → r.0 ≡ err e
          → (continue r f).0 ≡ err e
      continue_err (ok a, s) f h = cc
      continue_err (err x, s) f h = cc
      continue_err (panic, s) f h = cc

  pub >>_err :
      (m : Exec S A) (n : Exec S B) (s : S) {e : PacketError}
      → (m s).0 ≡ err e
      → ((m >> n) s).0 ≡ err e
  unfolding ◌>>◌
  >>_err m n s h = >>=_err m (λ _. n) s h

  pub >>_panic : (m : Exec S A) (n : Exec S B) (s : S) → (m s).0 ≡ panic → ((m >> n) s).0 ≡ panic
  unfolding ◌>>◌ ◌>>=◌
  >>_panic m n s h = continue_panic (m s) h
    where
      continue_panic : (r : Result A × S) → r.0 ≡ panic → (continue r (λ _. n)).0 ≡ panic
      continue_panic (ok a, s) h = cc
      continue_panic (err x, s) h = cc
      continue_panic (panic, s) h = refl

-- `if test { return Err(e) }`
abbrev pub fail_if : {S : Type 0} → Bool → PacketError → Exec S (Unit {0})
fail_if b e = if b then raise e else pure tt

module _ {S B : Type 0} where
  pub fail_if-false :
      (b : Bool) (e : PacketError) (n : Exec S B) (s : S) → b ≡ false → (fail_if b e >> n) s ≡ n s
  unfolding ◌>>◌
  fail_if-false b e n s h = rw h

  pub fail_if-true :
      (b : Bool) (e : PacketError) (n : Exec S B) (s : S)
      → b ≡ true
      → (fail_if b e >> n) s ≡ (err e, s)
  unfolding ◌>>◌
  fail_if-true b e n s h = rw h

  pub get-bind : (f : S → Exec S B) (s : S) → (get >>= f) s ≡ f s s
  unfolding ◌>>=◌
  get-bind f s = refl

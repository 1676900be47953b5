-- ===== src/Utf8.antt =====
-- `core::str::from_utf8`: which byte strings are well formed UTF-8 (Unicode standard, table 3-7).
-- The Rust type `&str` holds such bytes only, so a string of the model is a list of bytes.
use mqtt_async_embedded.Prelude.{
  ℕ, Bool, true, false, ◌&&◌, List, [], ◌∷◌, leb, if◌then◌else◌, ◌==◌, ◌≡◌, refl,
}

-- What the bytes read so far call for: a new character, one to three more continuation bytes, or
-- the restricted second byte after the lead bytes E0, ED, F0 and F4.
pub data Utf8State : Type 0 where
  start one two three after_e0 after_ed after_f0 after_f4 reject : Utf8State

abbrev within : ℕ → ℕ → ℕ → Bool
within low high b = leb low b && leb b high

abbrev expect : Bool → Utf8State → Utf8State
expect b s = if b then s else reject

utf8_lead : ℕ → Utf8State
utf8_lead b =
    if leb b 0x7f
    then start
    else if within 0xc2 0xdf b
    then one
    else if b == 0xe0
    then after_e0
    else if b == 0xed
    then after_ed
    else if within 0xe1 0xef b
    then two
    else if b == 0xf0
    then after_f0
    else if b == 0xf4
    then after_f4
    else expect (within 0xf1 0xf3 b) three

utf8_step : Utf8State → ℕ → Utf8State
utf8_step start b = utf8_lead b
utf8_step one b = expect (within 0x80 0xbf b) start
utf8_step two b = expect (within 0x80 0xbf b) one
utf8_step three b = expect (within 0x80 0xbf b) two
utf8_step after_e0 b = expect (within 0xa0 0xbf b) one
utf8_step after_ed b = expect (within 0x80 0x9f b) one
utf8_step after_f0 b = expect (within 0x90 0xbf b) two
utf8_step after_f4 b = expect (within 0x80 0x8f b) two
utf8_step reject b = reject

utf8_run : Utf8State → List ℕ → Bool
utf8_run start [] = true
utf8_run _ [] = false
utf8_run s (b ∷ bs) = utf8_run (utf8_step s b) bs

unfoldable pub is_utf8 : List ℕ → Bool
unfolding utf8_run utf8_step utf8_lead
is_utf8 s = utf8_run start s

abbrev pub IsUtf8 : List ℕ → Type 0
IsUtf8 s = is_utf8 s ≡ true

-- "é€" and a surrogate.
accepts_two_characters : is_utf8 (0xc3 ∷ 0xa9 ∷ 0xe2 ∷ 0x82 ∷ 0xac ∷ []) ≡ true
unfolding is_utf8
accepts_two_characters = refl

refuses_surrogate : is_utf8 (0xed ∷ 0xa0 ∷ 0x80 ∷ []) ≡ false
unfolding is_utf8
refuses_surrogate = refl

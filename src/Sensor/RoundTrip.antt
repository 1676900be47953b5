-- ===== src/Sensor/RoundTrip.antt =====
-- Typed payloads through their bytes, what is cut off included.
use mqtt_async_embedded.Prelude.{
  ℕ, zero, suc, ◌+◌, ◌*◌, ◌%◌, ◌≤◌, ◌<◌, ◌≡◌, refl, ap, ◌∙◌, List, [], ◌∷◌, ◌++◌, length, take,
  drop, All, length-append, take-length-append, drop-length-append, le→ltb, arith,
}
use mqtt_async_embedded.Utf8.{IsUtf8}
use mqtt_async_embedded.Buffers.{Buffers, size}
use mqtt_async_embedded.Sensor.{
  SensorDataType, raw, time_series, time_series_f32, json, audio_pcm, image_frame, put_values,
  get_values, encode_data, decode_values, decode_audio, decode_image, decode_data,
}

-- What the bytes keep of a value: counts are u16, the length of a media type is u8.
unfoldable pub carried : (List ℕ → List ℕ) → SensorDataType → SensorDataType
carried lossy (raw bytes) = raw bytes
carried lossy (time_series values) = time_series (take (length values % 65536) values)
carried lossy (time_series_f32 values) = time_series_f32 (take (length values % 65536) values)
carried lossy (json text) = json (lossy text)
carried lossy (audio_pcm sample_rate channels pcm) = audio_pcm sample_rate channels pcm
carried lossy (image_frame mime image) =
    let mime_len = length mime % 256 in
    image_frame (lossy (take mime_len (mime ++ image))) (drop mime_len (mime ++ image))

-- The numbers are in the range of their types.
abbrev pub InRange : SensorDataType → Type 0
InRange (raw bytes) = Unit {0}
InRange (time_series values) = All (λ v. v < size 8) values
InRange (time_series_f32 values) = All (λ v. v < size 4) values
InRange (json text) = Unit {0}
InRange (audio_pcm sample_rate channels pcm) = sample_rate < size 4
InRange (image_frame mime image) = Unit {0}

module _ (b : Buffers) where
  length-put_values : (width : ℕ) (vs : List ℕ) → length (put_values b width vs) ≡ length vs * width
  unfolding put_values
  length-put_values width [] = grind arith
  length-put_values width (v ∷ vs) = grind (
    arith,
    length-append {0} (Buffers.put b width v) (put_values b width vs),
    Buffers.length-put b width v,
    length-put_values width vs,
  )

  get_values-put_values :
      (width count : ℕ) (vs : List ℕ)
      → All (λ v. v < size width) vs
      → count ≤ length vs
      → get_values b width count (put_values b width vs) ≡ take count vs
  unfolding put_values get_values
  get_values-put_values width zero vs ok h = refl
  get_values-put_values width (suc count) [] ok h = absurd (omega arith)
  get_values-put_values width (suc count) (v ∷ vs) (fits, ok) h =
      rw (Buffers.get-put b width v (put_values b width vs) fits)
        (ap (λ l. v ∷ l) (get_values-put_values width count vs ok (omega arith)))

  decode_values-put :
      (width : ℕ) (series : List ℕ → SensorDataType) (payload values : List ℕ)
      → All (λ v. v < size width) values
      → decode_values b width series payload
          (Buffers.put b 2 (length values % 65536) ++ put_values b width values)
        ≡ series (take (length values % 65536) values)
  unfolding decode_values
  decode_values-put width series payload values ok =
      let count = length values % 65536 in
      let items = put_values b width values in
      let two : length (Buffers.put b 2 count ++ items) ≡ 2 + length items =
        omega
          (arith, length-append {0} (Buffers.put b 2 count) items, Buffers.length-put b 2 count) in
      let enough : count * width ≤ length items = grind (arith, length-put_values width values) in
      rw
        (
          le→ltb (length (Buffers.put b 2 count ++ items)) 2 (omega (arith, two)),
          Buffers.get-put b 2 count items (unfold size in omega arith),
          le→ltb (length items) (count * width) enough,
          get_values-put_values width count values ok (omega arith),
        )
        refl

  decode_audio-put :
      (payload pcm : List ℕ) (sample_rate channels : ℕ)
      → sample_rate < size 4
      → decode_audio b payload (Buffers.put b 4 sample_rate ++ (channels ∷ pcm))
        ≡ audio_pcm sample_rate channels pcm
  unfolding decode_audio
  decode_audio-put payload pcm sample_rate channels fits =
      let slice = Buffers.put b 4 sample_rate ++ (channels ∷ pcm) in
      let long : 5 ≤ length slice = omega (
        arith,
        length-append {0} (Buffers.put b 4 sample_rate) (channels ∷ pcm),
        Buffers.length-put b 4 sample_rate,
      ) in
      rw (le→ltb (length slice) 5 long, Buffers.get-put b 4 sample_rate (channels ∷ pcm) fits) refl

  decode_image-put :
      (lossy : List ℕ → List ℕ) (payload mime image : List ℕ)
      → decode_image b lossy payload ((length mime % 256) ∷ (mime ++ image))
        ≡ carried lossy (image_frame mime image)
  unfolding decode_image carried
  decode_image-put lossy payload mime image =
      rw
        (le→ltb (length (mime ++ image)) (length mime % 256)
          (omega (arith, length-append {0} mime image)))
        refl

  -- A payload of numbers in the range of their types is decoded from its bytes as what the bytes
  -- carry: a series loses the values past the largest multiple of 65536 in its length that its u16
  -- count leaves out, and a media type is cut to its length modulo 256; all else comes back.
  pub decode_data-encode_data :
      (lossy : List ℕ → List ℕ) (d : SensorDataType)
      → InRange d
      → decode_data b lossy (encode_data b d) ≡ carried lossy d
  unfolding decode_data encode_data carried
  decode_data-encode_data lossy (raw bytes) ok = refl
  decode_data-encode_data lossy (time_series values) ok =
      decode_values-put 8 time_series _ values ok
  decode_data-encode_data lossy (time_series_f32 values) ok =
      decode_values-put 4 time_series_f32 _ values ok
  decode_data-encode_data lossy (json text) ok = refl
  decode_data-encode_data lossy (audio_pcm sample_rate channels pcm) ok =
      decode_audio-put _ pcm sample_rate channels ok
  decode_data-encode_data lossy (image_frame mime image) ok = decode_image-put lossy _ mime image

-- A payload that its counts can hold, with texts in UTF-8.
abbrev pub IsCounted : SensorDataType → Type 0
IsCounted (raw bytes) = Unit {0}
IsCounted (time_series values) = length values < 65536
IsCounted (time_series_f32 values) = length values < 65536
IsCounted (json text) = IsUtf8 text
IsCounted (audio_pcm sample_rate channels pcm) = Unit {0}
IsCounted (image_frame mime image) = (length mime < 256) × IsUtf8 mime

take-length : (xs : List ℕ) → take (length xs) xs ≡ xs
take-length [] = refl
take-length (x ∷ xs) = ap (λ l. x ∷ l) (take-length xs)

take_counted : (xs : List ℕ) → length xs < 65536 → take (length xs % 65536) xs ≡ xs
take_counted xs h =
    let small : length xs % 65536 ≡ length xs = omega arith in rw small (take-length xs)

-- With such counts and texts, the payload itself comes back.
pub decode_data-whole :
    (b : Buffers) (lossy : List ℕ → List ℕ) (d : SensorDataType)
    → ((s : List ℕ) → IsUtf8 s → lossy s ≡ s)
    → InRange d
    → IsCounted d
    → decode_data b lossy (encode_data b d) ≡ d
unfolding carried
decode_data-whole b lossy d keeps ok counted =
    decode_data-encode_data b lossy d ok ∙ whole d counted
  where
    whole : (d : SensorDataType) → IsCounted d → carried lossy d ≡ d
    whole (raw bytes) counted = refl
    whole (time_series values) counted = ap time_series (take_counted values counted)
    whole (time_series_f32 values) counted = ap time_series_f32 (take_counted values counted)
    whole (json text) counted = ap json (keeps text counted)
    whole (audio_pcm sample_rate channels pcm) counted = refl
    whole (image_frame mime image) (short, text) =
        let small : length mime % 256 ≡ length mime = omega arith in
        rw (small, take-length-append mime image, drop-length-append mime image, keeps mime text)
          refl

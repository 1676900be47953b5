-- ===== src/Sensor.antt =====
-- crates/mqtt-tokio/src/stream.rs, lines 23 to 179: typed payloads and their bytes. A float is the
-- number of its bits. `from_utf8_lossy`, which gives a text back as it is, is the argument `lossy`.
pub mod RoundTrip
use mqtt_async_embedded.Prelude.{
  ℕ, zero, suc, ◌*◌, ◌%◌, Bool, true, false, List, [], ◌∷◌, ◌++◌, length, take, drop, ltb, ◌==◌,
  if◌then◌else◌,
}
use mqtt_async_embedded.Buffers.{Buffers}

pub data SensorDataType : Type 0 where
  raw : List ℕ → SensorDataType
  time_series : List ℕ → SensorDataType
  time_series_f32 : List ℕ → SensorDataType
  json : List ℕ → SensorDataType
  audio_pcm : ℕ → ℕ → List ℕ → SensorDataType
  image_frame : List ℕ → List ℕ → SensorDataType

abbrev pub tag_raw : ℕ
tag_raw = 0x01

abbrev pub tag_timeseries_f64 : ℕ
tag_timeseries_f64 = 0x02

abbrev pub tag_timeseries_f32 : ℕ
tag_timeseries_f32 = 0x03

abbrev pub tag_json : ℕ
tag_json = 0x04

abbrev pub tag_audio_pcm : ℕ
tag_audio_pcm = 0x05

abbrev pub tag_image_frame : ℕ
tag_image_frame = 0x06

module _ (b : Buffers) where
  -- `for &v in values { buf.put(v) }`
  unfoldable pub put_values : ℕ → List ℕ → List ℕ
  put_values width [] = []
  put_values width (v ∷ vs) = Buffers.put b width v ++ put_values width vs

  -- `for _ in 0..count { vals.push(slice.get()) }`
  unfoldable pub get_values : ℕ → ℕ → List ℕ → List ℕ
  get_values width zero slice = []
  get_values width (suc count) slice =
      let (v, rest) = Buffers.get b width slice in v ∷ get_values width count rest

  unfoldable pub encode_data : SensorDataType → List ℕ
  encode_data (raw bytes) = tag_raw ∷ bytes
  encode_data (time_series values) =
      tag_timeseries_f64 ∷ (Buffers.put b 2 (length values % 65536) ++ put_values 8 values)
  encode_data (time_series_f32 values) =
      tag_timeseries_f32 ∷ (Buffers.put b 2 (length values % 65536) ++ put_values 4 values)
  encode_data (json text) = tag_json ∷ text
  encode_data (audio_pcm sample_rate channels pcm) =
      tag_audio_pcm ∷ (Buffers.put b 4 sample_rate ++ (channels ∷ pcm))
  encode_data (image_frame mime image) = tag_image_frame ∷ ((length mime % 256) ∷ (mime ++ image))

  -- The count and the values, or the whole payload where they do not fit in it.
  unfoldable pub decode_values : ℕ → (List ℕ → SensorDataType) → List ℕ → List ℕ → SensorDataType
  decode_values width series payload slice =
      if ltb (length slice) 2
      then raw payload
      else (let (count, rest) = Buffers.get b 2 slice in
          if ltb (length rest) (count * width)
          then raw payload
          else series (get_values width count rest))

  -- `slice.get_u8()` where the slice has a byte
  abbrev pub decode_channels : ℕ → List ℕ → List ℕ → SensorDataType
  decode_channels sample_rate payload [] = raw payload
  decode_channels sample_rate payload (channels ∷ pcm) = audio_pcm sample_rate channels pcm

  unfoldable pub decode_audio : List ℕ → List ℕ → SensorDataType
  decode_audio payload slice =
      if ltb (length slice) 5
      then raw payload
      else (let (sample_rate, rest) = Buffers.get b 4 slice in
          decode_channels sample_rate payload rest)

  unfoldable pub decode_image : (List ℕ → List ℕ) → List ℕ → List ℕ → SensorDataType
  decode_image lossy payload [] = raw payload
  decode_image lossy payload (mime_len ∷ slice) =
      if ltb (length slice) mime_len
      then raw payload
      else image_frame (lossy (take mime_len slice)) (drop mime_len slice)

  unfoldable pub decode_data : (List ℕ → List ℕ) → List ℕ → SensorDataType
  decode_data lossy [] = raw []
  decode_data lossy (tag ∷ slice) =
      if tag == tag_raw
      then raw slice
      else if tag == tag_timeseries_f64
      then decode_values 8 time_series (tag ∷ slice) slice
      else if tag == tag_timeseries_f32
      then decode_values 4 time_series_f32 (tag ∷ slice) slice
      else if tag == tag_json
      then json (lossy slice)
      else if tag == tag_audio_pcm
      then decode_audio (tag ∷ slice) slice
      else if tag == tag_image_frame
      then decode_image lossy (tag ∷ slice) slice
      else raw (tag ∷ slice)

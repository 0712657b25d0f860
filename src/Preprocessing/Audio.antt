-- ===== src/Preprocessing/Audio.antt =====
-- The preprocessing of audio chunks (preprocessing/audio.py). The base64 decoder, the reading of
-- raw bytes as samples, the resampling filter and the RMS level are numpy's and the standard
-- library's, so they are arguments; the tests, the lengths and the cutting are written out.
pub mod Splitting
pub mod Rates
use ai_proctor_engine.Base.{
  ℕ, zero, suc, String, str_eq, ◌+◌, ◌-◌, ◌*◌, ◌/◌, ◌%◌, ◌≡◌, Bool, true, false, not, ◌&&◌, ◌||◌,
  Option, none, some, List, [], ◌∷◌, ◌++◌, length, take, drop, replicate, any, ◌==◌, ltb,
  if◌then◌else◌,
}

-- The exceptions of this module.
pub data AudioError : Type 0 where
  audio_decode decoder_unknown_encoding : AudioError

pub data Audio {ℓ} (A : Type ℓ) : Type ℓ where
  audio : A → Audio A
  failed : AudioError → Audio A

infixl 5 ◌>>=◌
abbrev pub ◌>>=◌ {ℓ κ} : {A : Type ℓ} {B : Type κ} → Audio A → (A → Audio B) → Audio B
audio a >>= k = k a
failed e >>= k = failed e

pub data AudioEncoding : Type 0 where
  pcm_16_le pcm_16_be opus unknown : AudioEncoding

pub record AudioFrame (S : Type 0) : Type 0 where
  pub samples : List S
  pub sample_rate_hz : ℕ
  pub duration_ms : ℕ
  pub captured_at_ms : ℕ

abbrev pub vad_sample_rates : List ℕ
vad_sample_rates = 8000 ∷ 16000 ∷ 32000 ∷ 48000 ∷ []

abbrev pub vad_frame_durations : List ℕ
vad_frame_durations = 10 ∷ 20 ∷ 30 ∷ []

abbrev pub has : ℕ → List ℕ → Bool
has n = any (λ m. n == m)

-- The tests of `_coerce_encoding`, on a name that is stripped, lowered and has its dashes replaced.
unfoldable pub coerce_encoding : Option String → AudioEncoding
coerce_encoding none = unknown
coerce_encoding (some norm) =
    if any (str_eq norm) ("pcm16_le" ∷ "pcm_le" ∷ "s16_le" ∷ "signed16_le" ∷ [])
    then pcm_16_le
    else if any (str_eq norm) ("pcm16_be" ∷ "pcm_be" ∷ "s16_be" ∷ "signed16_be" ∷ [])
    then pcm_16_be
    else if any (str_eq norm) ("opus" ∷ "ogg_opus" ∷ [])
    then opus
    else unknown

-- What the decoders call: `base64.b64decode(encoded, validate=True)`, and `np.frombuffer` with the
-- byte order (little endian or not) on a buffer of full samples.
pub record Codec (S : Type 0) : Type 0 where
  pub b64decode : String → Option (List ℕ)
  pub from_buffer : Bool → List ℕ → List S

rate_supported : Option ℕ → Bool
rate_supported none = true
rate_supported (some rate) = has rate vad_sample_rates

module _ {S : Type 0} where
  decode_bytes : Codec S → Bool → Option (List ℕ) → Audio (List S)
  decode_bytes codec little none = failed audio_decode
  decode_bytes codec little (some raw) =
      if not (length raw % 2 == 0)
      then failed audio_decode
      else audio (codec.from_buffer little raw)

  -- `DecoderPcm16Le` and `DecoderPcm16Be`, which differ in the byte order.
  unfoldable pub decoder_pcm16 : Codec S → Bool → String → Audio (List S)
  unfolding decode_bytes
  decoder_pcm16 codec little encoded = decode_bytes codec little (codec.b64decode encoded)

  decode_as : Codec S → AudioEncoding → String → Audio (List S)
  unfolding decoder_pcm16
  decode_as codec opus encoded = failed decoder_unknown_encoding
  decode_as codec unknown encoded = failed decoder_unknown_encoding
  decode_as codec pcm_16_le encoded = decoder_pcm16 codec true encoded
  decode_as codec pcm_16_be encoded = decoder_pcm16 codec false encoded

  -- The payload is decoded before the rate is tested.
  unfoldable pub decode_pcm_audio_chunk :
      Codec S → String → Option String → Option ℕ → Audio (List S)
  unfolding coerce_encoding decode_as rate_supported
  decode_pcm_audio_chunk codec encoded encoding rate = do
    samples ← decode_as codec (coerce_encoding encoding) encoded
    if rate_supported rate then audio samples else failed audio_decode

  -- `n_full` frames from the sample at `i * size` on, the `i`-th of them captured at its offset.
  unfoldable pub full_frames : ℕ → ℕ → ℕ → ℕ → ℕ → ℕ → List S → List (AudioFrame S)
  full_frames zero i size rate duration offset samples = []
  full_frames (suc n) i size rate duration offset samples =
      let frame : AudioFrame S = record {
        samples = take size (drop (i * size) samples);
        sample_rate_hz = rate;
        duration_ms = duration;
        captured_at_ms = offset + i * duration;
      } in
      frame ∷ full_frames n (i + 1) size rate duration offset samples

  -- The samples that fill no frame, padded with silence to one.
  unfoldable pub tail_frame : S → ℕ → ℕ → ℕ → ℕ → ℕ → List S → List (AudioFrame S)
  tail_frame silence n_full size rate duration offset samples =
      let tail = length samples % size in
      if tail == 0
      then []
      else record {
        samples = drop (n_full * size) samples ++ replicate (size - tail) silence;
        sample_rate_hz = rate;
        duration_ms = duration;
        captured_at_ms = offset + n_full * duration;
      }
        ∷ []

  abbrev pub cut : S → ℕ → ℕ → ℕ → ℕ → List S → List (AudioFrame S)
  cut silence size rate duration offset samples =
      let n_full = length samples / size in
      full_frames n_full 0 size rate duration offset samples
      ++ tail_frame silence n_full size rate duration offset samples

  unfoldable pub split_into_vad_frames : S → ℕ → ℕ → ℕ → List S → Audio (List (AudioFrame S))
  split_into_vad_frames silence rate duration offset samples =
      let size = (rate * duration) / 1000 in
      if not (has rate vad_sample_rates)
      then failed audio_decode
      else if not (has duration vad_frame_durations)
      then failed audio_decode
      else if size == 0
      then failed audio_decode
      else if length samples == 0
      then audio []
      else audio (cut silence size rate duration offset samples)

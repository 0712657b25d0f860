-- ===== src/Preprocessing/Audio/Rates.antt =====
-- The rates of audio chunks: the resampling between them and the whole pipeline
-- (`resample_to_vad_rate`, `_nearest_vad_rate`, `preprocess_audio_chunk`).
use ai_proctor_engine.Base.{
  ℕ, String, ◌+◌, ◌-◌, ◌*◌, ◌/◌, ◌%◌, ◌≤◌, ◌≡◌, refl, sym, subst, ◌⊎◌, All, Bool, true, false, not,
  ◌&&◌, ◌||◌, Option, some, List, [], ◌∷◌, length, replicate, ◌==◌, ltb, if◌then◌else◌, Bool-cases,
  inl, inr, arith,
}
use ai_proctor_engine.Preprocessing.Audio.{
  AudioError, audio_decode, Audio, audio, failed, ◌>>=◌, AudioFrame, Codec, has, vad_sample_rates,
  vad_frame_durations, decode_pcm_audio_chunk, split_into_vad_frames, coerce_encoding, decode_as,
  rate_supported,
}

-- `abs(a - b)`
unfoldable pub distance : ℕ → ℕ → ℕ
distance a b = if ltb a b then b - a else a - b

-- `min(candidates, key=(abs(r - rate), -r))`: the smaller key is first, and of two rates equally
-- far the higher one.
closer : ℕ → ℕ → ℕ → Bool
unfolding distance
closer rate r best =
    ltb (distance r rate) (distance best rate)
    || ((distance r rate == distance best rate) && ltb best r)

closest : ℕ → ℕ → List ℕ → ℕ
closest rate best [] = best
closest rate best (r ∷ rs) =
    let next = closest rate r rs in
    let kept = closest rate best rs in if closer rate r best then next else kept

unfoldable pub nearest_vad_rate : ℕ → ℕ
unfolding closest closer
nearest_vad_rate rate = closest rate 8000 (16000 ∷ 32000 ∷ 48000 ∷ [])

-- `round(n * to / from)` of a number that is not negative: the nearest integer, and of two the even
-- one. The quotient of two rates and its product with a length are exact floats below 2^53.
unfoldable pub round_ratio : ℕ → ℕ → ℕ → ℕ
round_ratio n to from =
    let whole = n * to / from in
    let twice = 2 * ((n * to) % from) in
    if ltb twice from
    then whole
    else if ltb from twice
    then whole + 1
    else if whole % 2 == 0
    then whole
    else whole + 1

module _ {S : Type 0} where
  single : ℕ → (ℕ → List S → List S) → List S → List S
  single n interpolate (s ∷ []) = replicate n s
  single n interpolate samples = interpolate n samples

  -- The interpolation of the samples at a number of points is numpy's.
  unfoldable pub resample_to_vad_rate : (ℕ → List S → List S) → ℕ → ℕ → List S → Audio (List S)
  unfolding round_ratio single
  resample_to_vad_rate interpolate from to samples =
      let dst_len = round_ratio (length samples) to from in
      if not (has from vad_sample_rates)
      then failed audio_decode
      else if not (has to vad_sample_rates)
      then failed audio_decode
      else if from == to
      then audio samples
      else if dst_len == 0
      then audio []
      else audio (single dst_len interpolate samples)

  -- The samples and the rate that they are cut at.
  resampled : (ℕ → List S → List S) → ℕ → List S → Audio (List S × ℕ)
  unfolding resample_to_vad_rate nearest_vad_rate
  resampled interpolate rate samples =
      if not (has rate vad_sample_rates)
      then resample_to_vad_rate interpolate rate (nearest_vad_rate rate) samples
        >>= (λ s. audio (s, nearest_vad_rate rate))
      else audio (samples, rate)

  pipeline :
      Codec S
      → (ℕ → List S → List S)
      → S
      → String
      → Option String
      → ℕ
      → ℕ
      → Audio (List (AudioFrame S) × List S)
  unfolding decode_pcm_audio_chunk resampled split_into_vad_frames
  pipeline codec interpolate silence encoded encoding rate frame_duration = do
    samples ← decode_pcm_audio_chunk codec encoded encoding (some rate)
    pair ← resampled interpolate rate samples
    frames ← split_into_vad_frames silence pair.1 frame_duration 0 pair.0
    audio (frames, pair.0)

  -- The RMS level is computed from the samples that are handed back beside the frames.
  unfoldable pub preprocess_audio_chunk :
      Codec S
      → (ℕ → List S → List S)
      → S
      → String
      → Option String
      → ℕ
      → ℕ
      → Audio (List (AudioFrame S) × List S)
  unfolding pipeline
  preprocess_audio_chunk codec interpolate silence encoded encoding rate frame_duration =
      if not (has frame_duration vad_frame_durations)
      then failed audio_decode
      else pipeline codec interpolate silence encoded encoding rate frame_duration

abbrev AtMost : ℕ → ℕ → List ℕ → Type 0
AtMost rate chosen rs = All (λ r. distance chosen rate ≤ distance r rate) rs

closer-le :
    (rate r best : ℕ)
    → (closer rate r best ≡ true → distance r rate ≤ distance best rate)
      × (closer rate r best ≡ false → distance best rate ≤ distance r rate)
unfolding closer
closer-le rate r best = (λ h. ground (arith, h), λ h. ground (arith, h))

-- The choice is never farther than the first candidate and every other one.
closest-least : (rate best : ℕ) (rs : List ℕ) → AtMost rate (closest rate best rs) (best ∷ rs)
unfolding closest
closest-least rate best [] = (omega arith, tt)
closest-least rate best (r ∷ rs) =
    let (nearer, farther) = closer-le rate r best in
    elim (Bool-cases (closer rate r best)) [
      | inl e ↦
          let (here, others) = closest-least rate r rs in
          subst (λ c. AtMost rate c (best ∷ r ∷ rs)) (ground (arith, e))
            (omega (arith, here, nearer e), (here, others))
      | inr e ↦
          let (here, others) = closest-least rate best rs in
          subst (λ c. AtMost rate c (best ∷ r ∷ rs)) (ground (arith, e))
            (here, (omega (arith, here, farther e), others))
    ]

-- No rate of the list is closer than the chosen one.
pub nearest_vad_rate-closest :
    (rate r : ℕ)
    → has r vad_sample_rates ≡ true
    → distance (nearest_vad_rate rate) rate ≤ distance r rate
unfolding nearest_vad_rate
nearest_vad_rate-closest rate r h =
    let (a, bs) = closest-least rate 8000 (16000 ∷ 32000 ∷ 48000 ∷ []) in
    let (b, cs) = bs in
    let (c, ds) = cs in
    let rates : (r ≡ 8000) ⊎ ((r ≡ 16000) ⊎ ((r ≡ 32000) ⊎ (r ≡ 48000))) = ground (arith, h) in
    elim rates [
      | inl e ↦ subst (λ k. distance (nearest_vad_rate rate) rate ≤ distance k rate) (sym e) a
      | inr (inl e) ↦ subst (λ k. distance (nearest_vad_rate rate) rate ≤ distance k rate) (sym e) b
      | inr (inr (inl e)) ↦
          subst (λ k. distance (nearest_vad_rate rate) rate ≤ distance k rate) (sym e) c
      | inr (inr (inr e)) ↦
          subst (λ k. distance (nearest_vad_rate rate) rate ≤ distance k rate) (sym e) ds.0
    ]

Audio-cases :
    {A : Type 0} (o : Audio A) → ((e : AudioError) × (o ≡ failed e)) ⊎ ((a : A) × (o ≡ audio a))
Audio-cases (failed e) = inl (e, refl)
Audio-cases (audio a) = inr (a, refl)

module _ {S : Type 0} where
  decode-refuses :
      (codec : Codec S) (encoded : String) (encoding : Option String) (rate : ℕ)
      → has rate vad_sample_rates ≡ false
      → (e : AudioError) × (decode_pcm_audio_chunk codec encoded encoding (some rate) ≡ failed e)
  unfolding decode_pcm_audio_chunk rate_supported
  decode-refuses codec encoded encoding rate h =
      elim (Audio-cases (decode_as codec (coerce_encoding encoding) encoded)) [
        | inl (e, h1) ↦ (e, ground (arith, h, h1))
        | inr (a, h1) ↦ (audio_decode, ground (arith, h, h1))
      ]

  -- The decoder refuses the rate first, so no chunk ever reaches the resampling.
  pub preprocess_audio_chunk-refuses :
      (codec : Codec S) (interpolate : ℕ → List S → List S) (silence : S) (encoded : String)
      (encoding : Option String) (rate frame_duration : ℕ)
      → has rate vad_sample_rates ≡ false
      → (e : AudioError) × (preprocess_audio_chunk codec interpolate silence encoded encoding rate
            frame_duration
          ≡ failed e)
  unfolding preprocess_audio_chunk pipeline
  preprocess_audio_chunk-refuses codec interpolate silence encoded encoding rate frame_duration h =
      let (e, refused) = decode-refuses codec encoded encoding rate h in
      elim (Bool-cases (has frame_duration vad_frame_durations)) [
        | inl k ↦ (e, ground (arith, k, refused))
        | inr k ↦ (audio_decode, ground (arith, k))
      ]

-- ===== src/Preprocessing/Audio/Splitting.antt =====
-- The frames of a chunk: all of its samples in order, then silence (`split_into_vad_frames`).
use ai_proctor_engine.Base.{
  ℕ, zero, suc, ◌+◌, ◌-◌, ◌*◌, ◌/◌, ◌%◌, ◌<◌, ◌≤◌, ◌≡◌, refl, ◌⊎◌, sym, ap, subst, ◌∙◌, true, List,
  [], ◌∷◌, ◌++◌, length, take, drop, replicate, All, All-append, take++drop, drop-drop, length-take,
  length-drop, length-append, length-replicate, drop_cong, drop-whole, append-nil, append_assoc,
  ◌==◌, if◌then◌else◌, Bool-cases, inl, inr, arith,
}
use ai_proctor_engine.Preprocessing.Audio.{
  AudioFrame, audio, has, vad_sample_rates, vad_frame_durations, full_frames, tail_frame,
  split_into_vad_frames, cut,
}

-- The padding of the last frame.
pub padding : ℕ → ℕ → ℕ
padding size n = if n % size == 0 then 0 else size - n % size

shift : (n : ℕ) → n ≡ 0 + n
shift n = omega arith

-- Every supported rate and duration has frames of at least one sample.
size-positive :
    (rate duration : ℕ)
    → has rate vad_sample_rates ≡ true
    → has duration vad_frame_durations ≡ true
    → 0 < rate * duration / 1000
size-positive rate duration h k =
    let rates : (rate ≡ 8000) ⊎ ((rate ≡ 16000) ⊎ ((rate ≡ 32000) ⊎ (rate ≡ 48000))) =
      ground (arith, h) in
    let long : 10 ≤ duration = ground (arith, k) in
    elim rates [
      | inl e ↦ omega (arith, long, ap (λ t. t * duration) e)
      | inr (inl e) ↦ omega (arith, long, ap (λ t. t * duration) e)
      | inr (inr (inl e)) ↦ omega (arith, long, ap (λ t. t * duration) e)
      | inr (inr (inr e)) ↦ omega (arith, long, ap (λ t. t * duration) e)
    ]

module _ {S : Type 0} where
  -- The samples of all frames, one frame after the other.
  abbrev pub joined : List (AudioFrame S) → List S
  joined [] = []
  joined (f ∷ fs) = f.samples ++ joined fs

  joined-append : (fs gs : List (AudioFrame S)) → joined (fs ++ gs) ≡ joined fs ++ joined gs
  joined-append [] gs = refl
  joined-append (f ∷ fs) gs = rw (joined-append fs gs, append_assoc) refl

  joined-full_frames :
      (n i size rate duration offset : ℕ) (samples : List S)
      → joined (full_frames n i size rate duration offset samples) ++ drop ((i + n) * size) samples
        ≡ drop (i * size) samples
  unfolding full_frames
  joined-full_frames zero i size rate duration offset samples =
      drop_cong ((i + 0) * size) (i * size) samples (omega arith)
  joined-full_frames (suc n) i size rate duration offset samples =
      let rest = joined-full_frames n (i + 1) size rate duration offset samples in
      let start = drop (i * size) samples in
      let moved = drop_cong ((i + suc n) * size) ((i + 1 + n) * size) samples (omega arith) in
      let onward = drop_cong ((i + 1) * size) (i * size + size) samples (omega arith) in
      let frames = joined (full_frames n (i + 1) size rate duration offset samples) in
      let later =
        ap (λ r. frames ++ r) moved ∙ rest ∙ onward ∙ sym (drop-drop size (i * size) samples) in
      append_assoc (take size start) frames (drop ((i + suc n) * size) samples)
      ∙ ap (λ r. take size start ++ r) later
      ∙ take++drop size start

  full_frames-lengths :
      (n i size rate duration offset : ℕ) (samples : List S)
      → (i + n) * size ≤ length samples
      → All (λ f. length f.samples ≡ size) (full_frames n i size rate duration offset samples)
  unfolding full_frames
  full_frames-lengths zero i size rate duration offset samples h = tt
  full_frames-lengths (suc n) i size rate duration offset samples h =
      let here = length-drop (i * size) samples in
      (
        length-take size (drop (i * size) samples) (omega (arith, here, h)),
        full_frames-lengths n (i + 1) size rate duration offset samples (omega (arith, h)),
      )

  -- What the model calls the `i`-th frame begins `i` frames after the chunk's offset.
  abbrev pub Offsets : ℕ → ℕ → ℕ → List (AudioFrame S) → Type 0
  Offsets i duration offset [] = Unit
  Offsets i duration offset (f ∷ fs) =
      (f.captured_at_ms ≡ offset + i * duration) × Offsets (i + 1) duration offset fs

  full_frames-Offsets :
      (n i size rate duration offset : ℕ) (samples : List S)
      → Offsets i duration offset (full_frames n i size rate duration offset samples)
  unfolding full_frames
  full_frames-Offsets zero i size rate duration offset samples = tt
  full_frames-Offsets (suc n) i size rate duration offset samples =
      (refl, full_frames-Offsets n (i + 1) size rate duration offset samples)

  -- A frame behind the others keeps the offsets in step.
  Offsets-append :
      (n i size rate duration offset : ℕ) (samples : List S) (fs : List (AudioFrame S))
      → Offsets (i + n) duration offset fs
      → Offsets i duration offset (full_frames n i size rate duration offset samples ++ fs)
  unfolding full_frames
  Offsets-append zero i size rate duration offset samples fs h =
      subst (λ k. Offsets k duration offset fs) (omega arith) h
  Offsets-append (suc n) i size rate duration offset samples fs h = (
    refl,
    Offsets-append n (i + 1) size rate duration offset samples fs
        (subst (λ k. Offsets k duration offset fs) (omega arith) h),
  )

  tail_frame-joined :
      (silence : S) (size rate duration offset : ℕ) (samples : List S)
      → 0 < size
      → joined (tail_frame silence (length samples / size) size rate duration offset samples)
        ≡ drop (length samples / size * size) samples
          ++ replicate (padding size (length samples)) silence
  unfolding tail_frame padding
  tail_frame-joined silence size rate duration offset samples pos =
      elim (Bool-cases (length samples % size == 0)) [
        | inl e ↦
            let whole =
              drop-whole (length samples / size * size) samples (ground (arith, e, pos)) in
            ground (arith, e, whole)
        | inr e ↦ ground (
          arith,
          e,
          append-nil (
              drop (length samples / size * size) samples
              ++ replicate (size - length samples % size) silence),
        )
      ]

  tail_frame-lengths :
      (silence : S) (size rate duration offset : ℕ) (samples : List S)
      → 0 < size
      → All
          (λ f. length f.samples ≡ size)
          (tail_frame silence (length samples / size) size rate duration offset samples)
  unfolding tail_frame
  tail_frame-lengths silence size rate duration offset samples pos =
      let tail = length samples % size in
      let dropped = length-drop (length samples / size * size) samples in
      let added =
        length-append (drop (length samples / size * size) samples)
          (replicate (size - tail) silence) in
      let padded = length-replicate (size - tail) silence in
      let full : length
            (drop (length samples / size * size) samples ++ replicate (size - tail) silence)
          ≡ size =
        omega (arith, dropped, added, padded, pos) in
      elim (Bool-cases (tail == 0)) [ inl e ↦ ground (arith, e) | inr e ↦ ground (arith, e, full) ]

  tail_frame-Offsets :
      (silence : S) (n size rate duration offset : ℕ) (samples : List S)
      → Offsets n duration offset (tail_frame silence n size rate duration offset samples)
  unfolding tail_frame
  tail_frame-Offsets silence n size rate duration offset samples =
      elim (Bool-cases (length samples % size == 0)) [
        | inl e ↦ ground (arith, e)
        | inr e ↦ ground (arith, e)
      ]

  cut-joined :
      (silence : S) (size rate duration offset : ℕ) (samples : List S)
      → 0 < size
      → joined (cut silence size rate duration offset samples)
        ≡ samples ++ replicate (padding size (length samples)) silence
  cut-joined silence size rate duration offset samples pos =
      let n = length samples / size in
      let fs = full_frames n 0 size rate duration offset samples in
      let pad = replicate (padding size (length samples)) silence in
      let start = drop_cong ((0 + n) * size) (n * size) samples (omega arith) in
      let zeroth = drop_cong (0 * size) 0 samples (omega arith) in
      let whole =
        ap (λ r. joined fs ++ r) (sym start)
        ∙ joined-full_frames n 0 size rate duration offset samples
        ∙ zeroth in
      joined-append fs (tail_frame silence n size rate duration offset samples)
      ∙ ap (λ r. joined fs ++ r) (tail_frame-joined silence size rate duration offset samples pos)
      ∙ sym (append_assoc (joined fs) (drop (n * size) samples) pad)
      ∙ ap (λ r. r ++ pad) whole

  -- What the theorem says of the frames of a chunk.
  pub record IsCut (silence : S) (size duration offset : ℕ) (samples : List S)
      (frames : List (AudioFrame S)) : Type 0 where
    pub content : joined frames ≡ samples ++ replicate (padding size (length samples)) silence
    pub lengths : All (λ f. length f.samples ≡ size) frames
    pub offsets : Offsets 0 duration offset frames

  cut-IsCut :
      (silence : S) (size rate duration offset : ℕ) (samples : List S)
      → 0 < size
      → IsCut silence size duration offset samples (cut silence size rate duration offset samples)
  cut-IsCut silence size rate duration offset samples pos =
      let n = length samples / size in
      let fs = full_frames n 0 size rate duration offset samples in
      let rest = tail_frame silence n size rate duration offset samples in
      let offsets =
        subst (λ k. Offsets k duration offset rest) (shift n)
          (tail_frame-Offsets silence n size rate duration offset samples) in
      record {
        content = cut-joined silence size rate duration offset samples pos;
        lengths =
            All-append (λ f. length f.samples ≡ size) fs rest
              (full_frames-lengths n 0 size rate duration offset samples (omega (arith, pos)))
              (tail_frame-lengths silence size rate duration offset samples pos);
        offsets = Offsets-append n 0 size rate duration offset samples rest offsets;
      }

  no_samples-IsCut :
      (silence : S) (size duration offset : ℕ) (samples : List S)
      → 0 < size
      → length samples ≡ 0
      → IsCut silence size duration offset samples []
  unfolding padding
  no_samples-IsCut silence size duration offset [] pos h = record {
    content = ground (arith, pos);
    lengths = tt;
    offsets = tt;
  }
  no_samples-IsCut silence size duration offset (x ∷ xs) pos h = ground (arith, h)

  -- A chunk at a supported rate, cut into frames of a supported duration, is cut into frames of the
  -- exact length that hold its samples in order and then silence, at their offsets in time.
  pub split_into_vad_frames-IsCut :
      (silence : S) (rate duration offset : ℕ) (samples : List S)
      → has rate vad_sample_rates ≡ true
      → has duration vad_frame_durations ≡ true
      → (frames : List (AudioFrame S)) × (split_into_vad_frames silence rate duration offset samples
          ≡ audio frames)
        × IsCut silence (rate * duration / 1000) duration offset samples frames
  unfolding split_into_vad_frames
  split_into_vad_frames-IsCut silence rate duration offset samples h k =
      let pos = size-positive rate duration h k in
      let frames = cut silence (rate * duration / 1000) rate duration offset samples in
      elim (Bool-cases (length samples == 0)) [
        | inl e ↦ (
          [],
          ground (arith, h, k, pos, e),
          no_samples-IsCut silence (rate * duration / 1000) duration offset samples pos
              (ground (arith, e)),
        )
        | inr e ↦ (
          frames,
          ground (arith, h, k, pos, e),
          cut-IsCut silence (rate * duration / 1000) rate duration offset samples pos,
        )
      ]

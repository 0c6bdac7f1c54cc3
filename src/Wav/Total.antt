-- ===== src/Wav/Total.antt =====
-- Every buffer is either accepted or refused as invalid audio: no read is out of range, and the
-- loop ends. What is accepted lies within the buffer.
use backend_bmo_blabs.Base.{
  ℕ, zero, suc, ◌+◌, ◌*◌, ◌%◌, ◌≤◌, ◌<◌, ◌≡◌, refl, ◌⊎◌, inl, inr, Bool, true, false, ◌&&◌, ◌||◌,
  not, none, some, List, [], ◌∷◌, Result, ok, err, ltb, leb, ◌==◌, length, arith, Bool-cases,
  Option-cases, ==_iff, leb→le,
}
use backend_bmo_blabs.Wav.{
  Fault, invalid_audio, WavFormat, WavMetadata, Chunks, ◌>>=◌, get_elem?, read_u8, read_u16,
  read_u32, is_ascii, fmt_id, data_id, riff, wave, read_format, read_chunk, scan, is_canonical,
  judge, validate_canonical_wav,
}

-- A read that succeeds.
abbrev pub Reads : {A : Type 0} → Result Fault A → Type 0
Reads {A} m = (a : A) × (m ≡ ok a)

get_elem?-some : (b : List ℕ) (o : ℕ) → o < length b → (x : ℕ) × (get_elem? b o ≡ some x)
unfolding get_elem?
get_elem?-some [] o h = elim h [ ]
get_elem?-some (x ∷ b) zero h = (x, refl)
get_elem?-some (x ∷ b) (suc o) h = get_elem?-some b o (omega arith)

read_u8-Reads : (b : List ℕ) (o : ℕ) → o < length b → Reads (read_u8 b o)
unfolding read_u8
read_u8-Reads b o h = let (x, e) = get_elem?-some b o h in (x, rw (e, read_u8) refl)

read_u16-Reads : (b : List ℕ) (o : ℕ) → o + 2 ≤ length b → Reads (read_u16 b o)
unfolding read_u16
read_u16-Reads b o h =
    let (x, e) = read_u8-Reads b o (omega arith) in
    let (y, f) = read_u8-Reads b (o + 1) (omega arith) in (x + 256 * y, ground arith)

read_u32-Reads : (b : List ℕ) (o : ℕ) → o + 4 ≤ length b → Reads (read_u32 b o)
unfolding read_u32
read_u32-Reads b o h =
    let (x, e) = read_u16-Reads b o (omega arith) in
    let (y, f) = read_u16-Reads b (o + 2) (omega arith) in (x + 65_536 * y, ground arith)

read_format-Reads : (b : List ℕ) (o : ℕ) → o + 16 ≤ length b → Reads (read_format b o)
unfolding read_format
read_format-Reads b o h =
    let (x₁, e₁) = read_u16-Reads b o (omega arith) in
    let (x₂, e₂) = read_u16-Reads b (o + 2) (omega arith) in
    let (x₃, e₃) = read_u32-Reads b (o + 4) (omega arith) in
    let (x₄, e₄) = read_u32-Reads b (o + 8) (omega arith) in
    let (x₅, e₅) = read_u16-Reads b (o + 12) (omega arith) in
    let (x₆, e₆) = read_u16-Reads b (o + 14) (omega arith) in
    let f : WavFormat = record {
      audio_format = x₁;
      channels = x₂;
      sample_rate = x₃;
      bits_per_sample = x₆;
      byte_rate = x₄;
      block_align = x₅;
    } in
    (
      f,
      rw (e₁, ◌>>=◌)
          (rw (e₂, ◌>>=◌) (rw (e₃, ◌>>=◌) (rw (e₄, ◌>>=◌) (rw (e₅, ◌>>=◌) (rw (e₆, ◌>>=◌) refl))))),
    )

-- The bytes that the chunks found take, each with its eight bytes of head.
abbrev pub taken : Chunks → ℕ
taken c = elim c.format [ none ↦ 0 | some f ↦ 24 ] + elim c.data_bytes [ none ↦ 0 | some d ↦ 8 + d ]

-- Either chunks that lie within the first `n` bytes, or the refusal.
abbrev pub Yields : ℕ → Result Fault Chunks → Type 0
Yields n m = ((c : Chunks) × (m ≡ ok c) × (12 + taken c ≤ n)) ⊎ (m ≡ err invalid_audio)

read_chunk-Yields :
    (b : List ℕ) (o size : ℕ) (c : Chunks)
    → 12 + taken c ≤ o
    → o + 8 + size ≤ length b
    → Yields (o + 8 + size) (read_chunk b o size c)
unfolding read_chunk
read_chunk-Yields b o size c before within = elim (Bool-cases (is_ascii b o fmt_id)) [
  | inl fmt ↦ elim (Bool-cases (ltb size 16)) [
    | inl short ↦ inr (rw (fmt, short) refl)
    | inr long ↦
        let (f, e) = read_format-Reads b (o + 8) (ground arith) in
        inl (record c { format = some f }, rw (fmt, long) (rw (e, ◌>>=◌) refl), ground arith)
  ]
  | inr other ↦ elim (Bool-cases (is_ascii b o data_id)) [
    | inl dat ↦ inl (record c { data_bytes = some size }, rw (other, dat) refl, ground arith)
    | inr skip ↦ inl (c, rw (other, skip) refl, omega arith)
  ]
]

scan-Yields :
    (fuel : ℕ) (b : List ℕ) (o : ℕ) (c : Chunks)
    → length b + 1 < o + fuel
    → o ≤ length b + 1
    → 12 + taken c ≤ o
    → 12 + taken c ≤ length b
    → Yields (length b) (scan fuel b o c)
unfolding scan
scan-Yields zero b o c enough below before within = absurd (omega arith)
scan-Yields (suc fuel) b o c enough below before within =
    elim (Bool-cases (leb (o + 8) (length b))) [
      | inr done ↦ inl (c, rw done refl, within)
      | inl more ↦
          let (size, e) = read_u32-Reads b (o + 4) (ground arith) in
          elim (Bool-cases (ltb (length b) (o + 8 + size))) [
            | inl past ↦ inr (rw (more, e, ◌>>=◌) (rw past refl))
            | inr fits ↦ elim (read_chunk-Yields b o size c before (ground arith)) [
              | inr bad ↦ inr (rw (more, e, ◌>>=◌) (rw fits (rw (bad, ◌>>=◌) refl)))
              | inl (c', good, room) ↦
                  rw (more, e, ◌>>=◌)
                    (rw fits (
                      rw (good, ◌>>=◌)
                        (scan-Yields fuel b (o + 8 + size + size % 2) c' (ground arith)
                          (ground arith) (ground arith) (ground arith))))
            ]
          ]
    ]

-- What is promised of an accepted buffer.
pub record IsCanonical (b : List ℕ) (max_duration_seconds : ℕ) (w : WavMetadata) : Type 0 where
  pub is_pcm : w.format.audio_format ≡ 1
  pub is_mono : w.format.channels ≡ 1
  pub has_rate : w.format.sample_rate ≡ 16_000
  pub has_width : w.format.bits_per_sample ≡ 16
  pub has_bytes : 0 < w.data_bytes
  pub has_samples : w.data_bytes % 2 ≡ 0
  pub is_short : w.data_bytes ≤ 32_000 * max_duration_seconds
  pub has_speed : w.bytes_per_second ≡ 32_000
  pub is_within : 44 + w.data_bytes ≤ length b

both : (x y : Bool) → (x && y) ≡ true → (x ≡ true) × (y ≡ true)
both true y h = (refl, h)
both false y h = absurd (ground arith)

-- The sizes that the three fixed numbers give.
sizes :
    (channels width rate align speed size max : ℕ)
    → channels ≡ 1
    → width ≡ 16
    → rate ≡ 16_000
    → 8 * align ≡ channels * width
    → 8 * speed ≡ rate * (channels * width)
    → 8 * size ≤ max * (rate * (channels * width))
    → (align ≡ 2) × (speed ≡ 32_000) × (size ≤ 32_000 * max)
sizes channels width rate align speed size max one sixteen hertz aligned speedy short =
    let e : channels * width ≡ 16 = rw (one, sixteen) refl in
    let e' : rate * (channels * width) ≡ 256_000 = rw (hertz, e) refl in
    let e'' : max * (rate * (channels * width)) ≡ max * 256_000 = rw (e') refl in
    (omega arith, omega arith, omega arith)

all_nine :
    (t₁ t₂ t₃ t₄ t₅ t₆ t₇ t₈ t₉ : Bool)
    → (t₁ && t₂ && t₃ && t₄ && t₅ && t₆ && t₇ && t₈ && t₉) ≡ true
    → (t₁ ≡ true)
      × (t₂ ≡ true)
      × (t₃ ≡ true)
      × (t₄ ≡ true)
      × (t₅ ≡ true)
      × (t₆ ≡ true)
      × (t₇ ≡ true)
      × (t₈ ≡ true)
      × (t₉ ≡ true)
all_nine t₁ t₂ t₃ t₄ t₅ t₆ t₇ t₈ t₉ h =
    let (r₈, h₉) = both (t₁ && t₂ && t₃ && t₄ && t₅ && t₆ && t₇ && t₈) t₉ h in
    let (r₇, h₈) = both (t₁ && t₂ && t₃ && t₄ && t₅ && t₆ && t₇) t₈ r₈ in
    let (r₆, h₇) = both (t₁ && t₂ && t₃ && t₄ && t₅ && t₆) t₇ r₇ in
    let (r₅, h₆) = both (t₁ && t₂ && t₃ && t₄ && t₅) t₆ r₆ in
    let (r₄, h₅) = both (t₁ && t₂ && t₃ && t₄) t₅ r₅ in
    let (r₃, h₄) = both (t₁ && t₂ && t₃) t₄ r₄ in
    let (r₂, h₃) = both (t₁ && t₂) t₃ r₃ in
    let (h₁, h₂) = both t₁ t₂ r₂ in (h₁, h₂, h₃, h₄, h₅, h₆, h₇, h₈, h₉)

not_zero : (d : ℕ) → not (d == 0) ≡ true → 0 < d
not_zero d h = ground arith

is_canonical-IsCanonical :
    (b : List ℕ) (max : ℕ) (f : WavFormat) (d : ℕ)
    → is_canonical f d max ≡ true
    → 44 + d ≤ length b
    → IsCanonical b max (record { format = f; data_bytes = d; bytes_per_second = f.byte_rate })
unfolding is_canonical
is_canonical-IsCanonical b max f d h room =
    let width_bytes : ℕ = f.channels * f.bits_per_sample in
    let (h₁, h₂, h₃, h₄, h₅, h₆, h₇, h₈, h₉) =
      all_nine (f.audio_format == 1) (f.channels == 1) (f.sample_rate == 16_000)
        (f.bits_per_sample == 16) (8 * f.block_align == width_bytes)
        (8 * f.byte_rate == f.sample_rate * width_bytes) (not (d == 0)) (d % f.block_align == 0)
        (leb (8 * d) (max * (f.sample_rate * width_bytes))) h in
    let one : f.channels ≡ 1 = (==_iff _ _).0 h₂ in
    let width : f.bits_per_sample ≡ 16 = (==_iff _ _).0 h₄ in
    let hertz : f.sample_rate ≡ 16_000 = (==_iff _ _).0 h₃ in
    let (align, speed, short) =
      sizes f.channels f.bits_per_sample f.sample_rate f.block_align f.byte_rate d max one width
        hertz ((==_iff _ _).0 h₅) ((==_iff _ _).0 h₆) (leb→le _ _ h₉) in
    let even : d % f.block_align ≡ 0 = (==_iff _ _).0 h₈ in
    record {
      is_pcm = (==_iff _ _).0 h₁;
      is_mono = one;
      has_rate = hertz;
      has_width = width;
      has_bytes = not_zero d h₇;
      has_samples = rw (← align) even;
      is_short = short;
      has_speed = speed;
      is_within = room;
    }

judge-IsCanonical :
    (b : List ℕ) (max : ℕ) (c : Chunks)
    → 12 + taken c ≤ length b
    → ((w : WavMetadata) × (judge c max ≡ ok w) × IsCanonical b max w)
      ⊎ (judge c max ≡ err invalid_audio)
unfolding judge
judge-IsCanonical b max c within = elim (Option-cases c.format) [
  | inl none_format ↦ inr (rw (none_format) refl)
  | inr (f, some_format) ↦ elim (Option-cases c.data_bytes) [
    | inl none_data ↦ inr (rw (some_format, none_data) refl)
    | inr (d, some_data) ↦
        let room : 44 + d ≤ length b = ground arith in
        elim (Bool-cases (is_canonical f d max)) [
          | inl good ↦
              let w : WavMetadata = record {
                format = f;
                data_bytes = d;
                bytes_per_second = f.byte_rate;
              } in
              inl (
                w,
                rw (some_format, some_data) (rw good refl),
                is_canonical-IsCanonical b max f d good room,
              )
          | inr bad ↦ inr (rw (some_format, some_data) (rw bad refl))
        ]
  ]
]

-- A buffer is either accepted, and then it is mono 16-bit PCM at 16 kHz with whole samples, one at
-- least, no longer than the limit, all within the buffer; or it is refused as invalid audio. No
-- read is out of range and the loop ends.
pub validate_cases :
    (b : List ℕ) (max : ℕ)
    → ((w : WavMetadata) × (validate_canonical_wav b max ≡ ok w) × IsCanonical b max w)
      ⊎ (validate_canonical_wav b max ≡ err invalid_audio)
unfolding validate_canonical_wav
validate_cases b max =
    elim (Bool-cases (ltb (length b) 44 || not (is_ascii b 0 riff) || not (is_ascii b 8 wave))) [
      | inl refused ↦ inr (rw refused refl)
      | inr headed ↦
          let long : 44 ≤ length b = ground arith in
          let (size, e) = read_u32-Reads b 4 (omega arith) in
          elim (Bool-cases (size + 8 == length b)) [
            | inr odd ↦ inr (rw (headed, e, ◌>>=◌) (rw odd refl))
            | inl even ↦
                elim (scan-Yields (length b) b 12 (record { format = none; data_bytes = none })
                  (omega arith) (omega arith) (omega arith) (omega arith)) [
                    | inr bad ↦ inr (rw (headed, e, ◌>>=◌) (rw even (rw (bad, ◌>>=◌) refl)))
                    | inl (c, good, room) ↦ elim (judge-IsCanonical b max c room) [
                      | inl (w, f, props) ↦
                          inl (w, rw (headed, e, ◌>>=◌) (rw even (rw (good, ◌>>=◌) f)), props)
                      | inr f ↦ inr (rw (headed, e, ◌>>=◌) (rw even (rw (good, ◌>>=◌) f)))
                    ]
                  ]
          ]
    ]

-- ===== src/Wav/Canonical.antt =====
-- The canonical file: a header of 44 bytes and the samples.
use backend_bmo_blabs.Base.{
  ℕ, suc, ◌+◌, ◌*◌, ◌/◌, ◌%◌, ◌≤◌, ◌<◌, ◌≡◌, refl, true, false, none, some, List, [], ◌∷◌, ◌++◌, ok,
  ltb, leb, ◌==◌, length, arith, ap, subst, ◌∙◌, not,
}
use backend_bmo_blabs.Wav.{
  WavFormat, Chunks, ◌>>=◌, get_elem?, read_u32, is_ascii, fmt_id, data_id, riff, wave, read_chunk,
  scan, is_canonical, judge, validate_canonical_wav,
}

-- A number as four bytes, the lowest first.
abbrev pub u32_bytes : ℕ → List ℕ
u32_bytes n = n % 256 ∷ n / 256 % 256 ∷ n / 65_536 % 256 ∷ n / 16_777_216 % 256 ∷ []

abbrev pub canonical_wav : List ℕ → List ℕ
canonical_wav samples =
    riff
    ++ (u32_bytes (36 + length samples)
        ++ (wave
            ++ (fmt_id
                ++ (16
                    ∷ 0
                    ∷ 0
                    ∷ 0
                    ∷ 1
                    ∷ 0
                    ∷ 1
                    ∷ 0
                    ∷ 128
                    ∷ 62
                    ∷ 0
                    ∷ 0
                    ∷ 0
                    ∷ 125
                    ∷ 0
                    ∷ 0
                    ∷ 2
                    ∷ 0
                    ∷ 16
                    ∷ 0
                    ∷ (data_id ++ (u32_bytes (length samples) ++ samples))))))

abbrev pub canonical_format : WavFormat
canonical_format = record {
  audio_format = 1;
  channels = 1;
  sample_rate = 16_000;
  bits_per_sample = 16;
  byte_rate = 32_000;
  block_align = 2;
}

u32_lem :
    (n : ℕ)
    → n < 4_294_967_296
    → n % 256 + 256 * (n / 256 % 256) + 65_536 * (n / 65_536 % 256 + 256 * (n / 16_777_216 % 256))
      ≡ n
u32_lem n h = omega arith

size-read :
    (samples : List ℕ)
    → 36 + length samples < 4_294_967_296
    → read_u32 (canonical_wav samples) 4 ≡ ok (36 + length samples)
unfolding read_u32 get_elem?
size-read samples fits = ap ok (u32_lem (36 + length samples) fits)

data-read :
    (samples : List ℕ)
    → length samples < 4_294_967_296
    → read_u32 (canonical_wav samples) 40 ≡ ok (length samples)
unfolding read_u32 get_elem?
data-read samples fits = ap ok (u32_lem (length samples) fits)

scan-step :
    (fuel : ℕ) (b : List ℕ) (o size next : ℕ) (c c' : Chunks)
    → read_u32 b (o + 4) ≡ ok size
    → o + 8 + size ≤ length b
    → read_chunk b o size c ≡ ok c'
    → o + 8 + size + size % 2 ≡ next
    → scan (suc fuel) b o c ≡ scan fuel b next c'
unfolding scan
scan-step fuel b o size next c c' e fits good there =
    let more : leb (o + 8) (length b) ≡ true = ground arith in
    let past : ltb (length b) (o + 8 + size) ≡ false = ground arith in
    rw (more, e, ◌>>=◌) (rw past (rw (good, ◌>>=◌) (rw there refl)))

scan-stop :
    (fuel : ℕ) (b : List ℕ) (o : ℕ) (c : Chunks) → length b < o + 8 → scan (suc fuel) b o c ≡ ok c
unfolding scan
scan-stop fuel b o c h = let done : leb (o + 8) (length b) ≡ false = ground arith in rw done refl

fmt-read : (samples : List ℕ) → read_u32 (canonical_wav samples) 16 ≡ ok 16
unfolding read_u32 get_elem?
fmt-read samples = refl

fmt-chunk :
    (samples : List ℕ)
    → read_chunk (canonical_wav samples) 12 16 (record { format = none; data_bytes = none })
      ≡ ok (record { format = some canonical_format; data_bytes = none })
unfolding read_chunk get_elem?
fmt-chunk samples = refl

data-chunk :
    (samples : List ℕ) (n : ℕ)
    → read_chunk
        (canonical_wav samples)
        36
        n
        (record { format = some canonical_format; data_bytes = none })
      ≡ ok (record { format = some canonical_format; data_bytes = some n })
unfolding read_chunk get_elem?
data-chunk samples n = refl

scan-canonical :
    (fuel : ℕ) (samples : List ℕ)
    → length samples < 4_294_967_296
    → length samples % 2 ≡ 0
    → scan
        (suc (suc (suc fuel)))
        (canonical_wav samples)
        12
        (record { format = none; data_bytes = none })
      ≡ ok (record { format = some canonical_format; data_bytes = some (length samples) })
scan-canonical fuel samples small even =
    let b = canonical_wav samples in
    let n = length samples in
    let c₀ : Chunks = record { format = none; data_bytes = none } in
    let c₁ : Chunks = record { format = some canonical_format; data_bytes = none } in
    let c₂ : Chunks = record { format = some canonical_format; data_bytes = some n } in
    scan-step (suc (suc fuel)) b 12 16 36 c₀ c₁ (fmt-read samples) (omega arith) (fmt-chunk samples)
      refl
    ∙ scan-step (suc fuel) b 36 n (44 + n) c₁ c₂ (data-read samples small) (omega arith)
        (data-chunk samples n) (omega arith)
    ∙ scan-stop fuel b (44 + n) c₂ (omega arith)

judge-canonical :
    (n max : ℕ)
    → 0 < n
    → n % 2 ≡ 0
    → n ≤ 32_000 * max
    → judge (record { format = some canonical_format; data_bytes = some n }) max
      ≡ ok (record { format = canonical_format; data_bytes = n; bytes_per_second = 32_000 })
unfolding judge is_canonical
judge-canonical n max some_bytes even short =
    let a : not (n == 0) ≡ true = ground arith in
    let e : (n % 2 == 0) ≡ true = ground arith in
    let s : leb (8 * n) (max * 256_000) ≡ true = ground arith in rw (a, e, s) refl

-- The canonical header followed by any samples is accepted with the length of the samples, when
-- they are whole, one at least, no longer than the limit, and the sizes fit in 32 bits.
pub canonical-accepted :
    (samples : List ℕ) (max : ℕ)
    → 0 < length samples
    → length samples % 2 ≡ 0
    → length samples ≤ 32_000 * max
    → 36 + length samples < 4_294_967_296
    → validate_canonical_wav (canonical_wav samples) max
      ≡ ok (record {
        format = canonical_format;
        data_bytes = length samples;
        bytes_per_second = 32_000;
      })
unfolding validate_canonical_wav is_ascii
canonical-accepted samples max some_bytes even short fits =
    let b = canonical_wav samples in
    let n = length samples in
    let c₀ : Chunks = record { format = none; data_bytes = none } in
    let c₂ : Chunks = record { format = some canonical_format; data_bytes = some n } in
    let long : ltb (length b) 44 ≡ false = ground arith in
    let whole : (36 + n + 8 == length b) ≡ true = ground arith in
    let fuel : suc (suc (suc (41 + n))) ≡ length b = omega arith in
    let found : scan (length b) b 12 c₀ ≡ ok c₂ =
      subst (λ k. scan k b 12 c₀ ≡ ok c₂) fuel
        (scan-canonical (41 + n) samples (omega arith) even) in
    rw long (
      rw (size-read samples fits, ◌>>=◌)
        (rw whole (rw (found, ◌>>=◌) (judge-canonical n max some_bytes even short))))

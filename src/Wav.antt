-- ===== src/Wav.antt =====
-- backend/src/utils/wav-validator.ts. A buffer is its list of bytes. A read out of range is the
-- `RangeError` that Node throws. A duration is data bytes over bytes per second, not divided.
pub mod Total
pub mod Canonical
mod Tests
use backend_bmo_blabs.Base.{
  ℕ, zero, suc, ◌+◌, ◌*◌, ◌%◌, Bool, true, false, ◌&&◌, ◌||◌, not, Option, none, some, List, [],
  ◌∷◌, map, Result, ok, err, ltb, leb, ◌==◌, if◌then◌else◌, length,
}

pub data Fault : Type 0 where
  invalid_audio range_error out_of_fuel : Fault

pub record WavFormat : Type 0 where
  pub audio_format : ℕ
  pub channels : ℕ
  pub sample_rate : ℕ
  pub bits_per_sample : ℕ
  pub byte_rate : ℕ
  pub block_align : ℕ

-- The duration is `data_bytes` over `bytes_per_second`, in seconds.
pub record WavMetadata : Type 0 where
  pub format : WavFormat
  pub data_bytes : ℕ
  pub bytes_per_second : ℕ

infixl 5 ◌>>=◌
abbrev pub ◌>>=◌ : {A B : Type 0} → Result Fault A → (A → Result Fault B) → Result Fault B
ok a >>= f = f a
err e >>= f = err e

module _ {ℓ} {A : Type ℓ} where
  unfoldable pub get_elem? : List A → ℕ → Option A
  get_elem? [] i = none
  get_elem? (x ∷ xs) zero = some x
  get_elem? (x ∷ xs) (suc i) = get_elem? xs i

  unfoldable pub drop : ℕ → List A → List A
  drop zero xs = xs
  drop (suc n) [] = []
  drop (suc n) (x ∷ xs) = drop n xs

  unfoldable pub take : ℕ → List A → List A
  take zero xs = []
  take (suc n) [] = []
  take (suc n) (x ∷ xs) = x ∷ take n xs

pub read_u8 : List ℕ → ℕ → Result Fault ℕ
read_u8 b offset = elim (get_elem? b offset) [ none ↦ err range_error | some x ↦ ok x ]

-- `readUInt16LE`
pub read_u16 : List ℕ → ℕ → Result Fault ℕ
unfolding read_u8
read_u16 b offset = do low ← read_u8 b offset; high ← read_u8 b (offset + 1); ok (low + 256 * high)

-- `readUInt32LE`
pub read_u32 : List ℕ → ℕ → Result Fault ℕ
unfolding read_u16
read_u32 b offset = do
  low ← read_u16 b offset
  high ← read_u16 b (offset + 2)
  ok (low + 65_536 * high)

same_bytes : List ℕ → List ℕ → Bool
same_bytes [] [] = true
same_bytes (x ∷ xs) (y ∷ ys) = x == y && same_bytes xs ys
same_bytes _ _ = false

-- `buffer.toString("ascii", start, start + 4)` against four letters: Node clears the highest bit of
-- each byte.
pub is_ascii : List ℕ → ℕ → List ℕ → Bool
unfolding same_bytes drop take
is_ascii b start letters = same_bytes (map (λ x. x % 128) (take 4 (drop start b))) letters

abbrev pub riff : List ℕ
riff = b'R' ∷ b'I' ∷ b'F' ∷ b'F' ∷ []

abbrev pub wave : List ℕ
wave = b'W' ∷ b'A' ∷ b'V' ∷ b'E' ∷ []

abbrev pub fmt_id : List ℕ
fmt_id = b'f' ∷ b'm' ∷ b't' ∷ 32 ∷ []

abbrev pub data_id : List ℕ
data_id = b'd' ∷ b'a' ∷ b't' ∷ b'a' ∷ []

-- What the loop has found.
pub record Chunks : Type 0 where
  pub format : Option WavFormat
  pub data_bytes : Option ℕ

-- The reads of a `fmt ` chunk.
pub read_format : List ℕ → ℕ → Result Fault WavFormat
unfolding read_u32
read_format b content_start = do
  audio_format ← read_u16 b content_start
  channels ← read_u16 b (content_start + 2)
  sample_rate ← read_u32 b (content_start + 4)
  byte_rate ← read_u32 b (content_start + 8)
  block_align ← read_u16 b (content_start + 12)
  bits_per_sample ← read_u16 b (content_start + 14)
  ok record {
    audio_format = audio_format;
    channels = channels;
    sample_rate = sample_rate;
    bits_per_sample = bits_per_sample;
    byte_rate = byte_rate;
    block_align = block_align;
  }

-- The body of the loop, for a chunk that lies within the buffer.
pub read_chunk : List ℕ → ℕ → ℕ → Chunks → Result Fault Chunks
unfolding is_ascii read_format
read_chunk b offset chunk_size c =
    if is_ascii b offset fmt_id
    then if ltb chunk_size 16
      then err invalid_audio
      else (read_format b (offset + 8) >>= λ f. ok (record c { format = some f }))
    else if is_ascii b offset data_id
    then ok (record c { data_bytes = some chunk_size })
    else ok c

-- The `while` loop. Each round goes on by eight bytes at least.
pub scan : ℕ → List ℕ → ℕ → Chunks → Result Fault Chunks
unfolding read_chunk
scan zero b offset c = err out_of_fuel
scan (suc fuel) b offset c =
    let go_on = read_u32 b (offset + 4) >>= λ chunk_size.
    if ltb (length b) (offset + 8 + chunk_size)
    then err invalid_audio
    else (read_chunk b offset chunk_size c >>= λ c'.
        scan fuel b (offset + 8 + chunk_size + chunk_size % 2) c') in
    if leb (offset + 8) (length b) then go_on else ok c

-- The last tests. With b the bits per sample, `channels * (b / 8)` and its multiples are compared
-- after multiplying both sides by 8.
pub is_canonical : WavFormat → ℕ → ℕ → Bool
is_canonical f data_bytes max_duration_seconds =
    f.audio_format == 1
    && f.channels == 1
    && f.sample_rate == 16_000
    && f.bits_per_sample == 16
    && 8 * f.block_align == f.channels * f.bits_per_sample
    && 8 * f.byte_rate == f.sample_rate * (f.channels * f.bits_per_sample)
    && not (data_bytes == 0)
    && data_bytes % f.block_align == 0
    && leb (8 * data_bytes)
        (max_duration_seconds * (f.sample_rate * (f.channels * f.bits_per_sample)))

-- After the loop.
pub judge : Chunks → ℕ → Result Fault WavMetadata
unfolding is_canonical
judge c max_duration_seconds = elim c.format [
  | none ↦ err invalid_audio
  | some f ↦ elim c.data_bytes [
    | none ↦ err invalid_audio
    | some d ↦
        if is_canonical f d max_duration_seconds
        then ok record { format = f; data_bytes = d; bytes_per_second = f.byte_rate }
        else err invalid_audio
  ]
]

-- `validateCanonicalWav`
pub validate_canonical_wav : List ℕ → ℕ → Result Fault WavMetadata
unfolding scan judge
validate_canonical_wav b max_duration_seconds =
    if ltb (length b) 44 || not (is_ascii b 0 riff) || not (is_ascii b 8 wave)
    then err invalid_audio
    else (read_u32 b 4 >>= λ size.
        if not (size + 8 == length b)
        then err invalid_audio
        else (scan (length b) b 12 (record { format = none; data_bytes = none }) >>= λ c.
            judge c max_duration_seconds))

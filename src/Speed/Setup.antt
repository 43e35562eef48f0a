-- ===== src/Speed/Setup.antt =====
-- What webClient/frontend/src/components/SpeedTest.tsx prepares: the information on the server, and
-- the random data of an upload, which `crypto.getRandomValues` fills in pieces.
use Prim.Native.String.{String}
use waddle_perf.Common.{
  ℕ, zero, suc, ◌+◌, ◌*◌, ◌/◌, ◌≤◌, ◌<◌, min, List, [], ◌∷◌, ltb, if◌then◌else◌, Option, none, some,
  ◌≡◌, refl, arith, Bool-cases, ltb→lt, inl, inr,
}

-- `fetchServerInfo` behind its `await`, with the reply's data, `none` where the request failed.
unfoldable pub receive_info : Option String → Option String → Option String
receive_info none server_info = server_info
receive_info (some info) server_info = some info

abbrev pub max_chunk_size : ℕ
max_chunk_size = 65536

-- The loop: the bounds of the pieces from `i` on, each filled by one call.
unfoldable pub fill : ℕ → ℕ → ℕ → List (ℕ × ℕ)
fill zero i size = []
fill (suc fuel) i size =
    let rest = fill fuel (i + max_chunk_size) size in
    if ltb i size then (i, min (i + max_chunk_size) size) ∷ rest else []

abbrev pub upload_data : ℕ → List (ℕ × ℕ)
upload_data size = fill (size / max_chunk_size + 1) 0 size

-- The pieces follow on each other from `i` to `size`, and none is empty or too long for one call.
abbrev pub IsCover : ℕ → ℕ → List (ℕ × ℕ) → Type 0
IsCover i size [] = i ≡ size
IsCover i size ((a, b) ∷ ps) = (a ≡ i) × (a < b) × (b ≤ a + max_chunk_size) × IsCover b size ps

fill-past : (fuel i size : ℕ) → size ≤ i → fill fuel i size ≡ []
unfolding fill
fill-past zero i size h = refl
fill-past (suc fuel) i size h = ground arith

fill-IsCover :
    (fuel i size : ℕ)
    → i ≤ size
    → size ≤ i + fuel * max_chunk_size
    → IsCover i size (fill fuel i size)
unfolding fill
fill-IsCover zero i size h k = omega arith
fill-IsCover (suc fuel) i size h k = elim (Bool-cases (ltb i size)) [
  | inr past ↦ let same : i ≡ size = ground arith in rw past same
  | inl before ↦ elim (Bool-cases (ltb size (i + max_chunk_size))) [
    | inl last ↦
        let lt : i < size = ltb→lt i size before in
        let near : size < i + max_chunk_size = ltb→lt size (i + max_chunk_size) last in
        let end : min (i + max_chunk_size) size ≡ size = omega arith in
        let past : size ≤ i + max_chunk_size = omega arith in
        rw (before, end, fill-past fuel (i + max_chunk_size) size past) (refl, lt, past, refl)
    | inr more ↦
        let far : i + max_chunk_size ≤ size = ground arith in
        let end : min (i + max_chunk_size) size ≡ i + max_chunk_size = omega arith in
        rw (before, end)
          (
            refl,
            omega arith,
            omega arith,
            fill-IsCover fuel (i + max_chunk_size) size far (omega arith),
          )
  ]
]

-- Whatever the size, the calls that fill the data of an upload cover it from its first byte to its
-- last one, each byte once, and no call is empty or over the 65536 bytes that it may fill.
pub upload_data-IsCover : (size : ℕ) → IsCover 0 size (upload_data size)
upload_data-IsCover size =
    fill-IsCover (size / max_chunk_size + 1) 0 size (omega arith) (omega arith)

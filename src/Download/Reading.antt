-- ===== src/Download/Reading.antt =====
-- The rounds of webClient/frontend/src/components/DownloadTest.tsx that are answered in full: what
-- reading them changes, and where the loop has come to behind them.
use waddle_perf.Common.{
  ℕ, suc, ◌+◌, ◌-◌, ◌*◌, ◌≤◌, ◌<◌, List, [], ◌∷◌, map, true, false, leb, ltb, if◌then◌else◌, none,
  some, ◌≡◌, refl, sym, ap, subst, ◌∙◌, inl, inr, arith, All, length, Bool-cases, if_intro,
}
use waddle_perf.Download.{
  exceeds, DownloadState, chunk_size_mb, mega, Chunk, response, Round, Loop, speed_mbps, note_speed,
  sample, read_chunk, read_body, download_size, ask, is_aborted, receive, round, finished, waiting,
  loop,
}

-- A request that is answered in full.
abbrev pub served : List Chunk → Round
served cs = record { cancels = false; fetched = response true true cs false }

abbrev pub size : List Chunk → ℕ
size [] = 0
size (c ∷ cs) = c.bytes + size cs

abbrev pub size_all : List (List Chunk) → ℕ
size_all [] = 0
size_all (cs ∷ css) = size cs + size_all css

-- What reading changes: the count goes up by `n`.
abbrev pub IsFurther : ℕ → Loop → Loop → Type 0
IsFurther n l m =
    (m.total_bytes ≡ l.total_bytes + n)
    × (m.state.controller ≡ l.state.controller)
    × (m.state.selected_size ≡ l.state.selected_size)
    × (m.asked ≡ l.asked)

sample-IsFurther : (now n : ℕ) (l m : Loop) → IsFurther n l m → IsFurther n l (sample now m)
unfolding sample note_speed
sample-IsFurther now n l m h =
    let q = speed_mbps m.total_bytes now in
    let noted = if_intro (IsFurther n l) (exceeds q m.max_speed) _ _ h h in
    let either = if_intro (IsFurther n l) (ltb 0 now) (note_speed q m) m noted h in
    if_intro (IsFurther n l) (leb 100 (now - m.last_update)) _ _ either h

read_body-IsFurther :
    (target n : ℕ) (cs : List Chunk) (l m : Loop)
    → IsFurther n l m
    → IsFurther (n + size cs) l (read_body target cs m)
unfolding read_body read_chunk
read_body-IsFurther target n [] l m (t, k, s, a) = (t ∙ omega arith, k, s, a)
read_body-IsFurther target n (c ∷ cs) l m (t, k, s, a) =
    let total = m.total_bytes + c.bytes in
    let counted = record m {
      total_bytes = total;
      state = record m.state { bytes_downloaded = total };
    } in
    let h = sample-IsFurther c.now (n + c.bytes) l counted (omega (arith, t), k, s, a) in
    let (t', k', s', a') =
      read_body-IsFurther target (n + c.bytes) cs l (read_chunk target c m) (h.0, h.1, h.2, h.3) in
    (t' ∙ omega arith, k', s', a')

-- A round that is answered in full asks once, and goes on.
round-served :
    (target : ℕ) (cs : List Chunk) (l : Loop)
    → l.state.controller ≡ some false
    → round target (served cs) l ≡ (true, read_body target cs (ask target l))
unfolding round receive
round-served target cs l live =
    ap (λ b. if b then (false, l) else (true, read_body target cs (ask target l)))
      (aborted l.state live)
  where
    aborted : (s : DownloadState) → s.controller ≡ some false → is_aborted s ≡ false
    aborted s e = ap (λ o. elim o [ none ↦ false | some b ↦ b ]) e

-- Where the loop has come to, a whole run of answered rounds later.
module _ (target : ℕ) where
  loop-served :
      (cs : List Chunk) (css : List (List Chunk)) (l : Loop)
      → l.state.controller ≡ some false
      → l.total_bytes < target
      → loop target (map served (cs ∷ css)) l
        ≡ loop target (map served css) (read_body target cs (ask target l))
  unfolding loop
  loop-served cs css l live lt =
      let more : ltb l.total_bytes target ≡ true = ground arith in
      rw (more, round-served target cs l live) refl

  loop-stop :
      (rs : List Round) (l : Loop) → target ≤ l.total_bytes → loop target rs l ≡ (finished, l)
  unfolding loop
  loop-stop [] l le = let stop : ltb l.total_bytes target ≡ false = ground arith in rw stop refl
  loop-stop (r ∷ rs) l le =
      let stop : ltb l.total_bytes target ≡ false = ground arith in rw stop refl

  pub loop-finished :
      (css : List (List Chunk)) (l : Loop)
      → l.state.controller ≡ some false
      → target ≤ l.total_bytes + size_all css
      → (loop target (map served css) l).0 ≡ finished
  loop-finished [] l live le = rw (loop-stop [] l (omega (arith, le))) refl
  loop-finished (cs ∷ css) l live le = elim (Bool-cases (ltb l.total_bytes target)) [
    | inl e ↦
        let (t, k, s, a) =
          read_body-IsFurther target 0 cs (ask target l) (ask target l)
            (omega arith, refl, refl, refl) in
        rw (loop-served cs css l live (ground arith))
          (loop-finished css (read_body target cs (ask target l)) (k ∙ live) (omega (arith, t, le)))
    | inr e ↦ rw (loop-stop (map served (cs ∷ css)) l (ground arith)) refl
  ]

  pub loop-waiting :
      (css : List (List Chunk)) (l : Loop)
      → l.state.controller ≡ some false
      → size_all css ≡ 0
      → l.total_bytes < target
      → ((loop target (map served css) l).0 ≡ waiting)
        × (length (loop target (map served css) l).1.asked ≡ suc (length css + length l.asked))
  unfolding loop
  loop-waiting [] l live empty lt =
      let more : ltb l.total_bytes target ≡ true = ground arith in rw more (refl, omega arith)
  loop-waiting (cs ∷ css) l live empty lt =
      let (t, k, s, a) =
        read_body-IsFurther target 0 cs (ask target l) (ask target l)
          (omega arith, refl, refl, refl) in
      let (w, n) =
        loop-waiting css (read_body target cs (ask target l)) (k ∙ live) (omega (arith, empty))
          (omega (arith, t, empty, lt)) in
      rw (loop-served cs css l live lt) (w, n ∙ omega (arith, ap length a))

  -- Requests for ten megabytes each, all served in full.
  abbrev pub IsExact : ℕ → Loop → Type 0
  IsExact n m =
      (m.total_bytes ≡ target) × All (λ k. k ≡ chunk_size_mb) m.asked × (length m.asked ≡ n)

  download_size_lem :
      (total : ℕ)
      → total + chunk_size_mb * mega ≤ target
      → download_size target total ≡ chunk_size_mb
  unfolding download_size
  download_size_lem total le = omega (arith, le)

  pub loop-IsExact :
      (css : List (List Chunk)) (l : Loop)
      → l.state.controller ≡ some false
      → All (λ cs. size cs ≡ chunk_size_mb * mega) css
      → l.total_bytes + length css * (chunk_size_mb * mega) ≡ target
      → All (λ k. k ≡ chunk_size_mb) l.asked
      → IsExact (length css + length l.asked) (loop target (map served css) l).1
  loop-IsExact [] l live full e fair =
      rw (loop-stop [] l (omega (arith, e))) (omega (arith, e), fair, omega arith)
  loop-IsExact (cs ∷ css) l live (p, full) e fair =
      let (t, k, s, a) =
        read_body-IsFurther target 0 cs (ask target l) (ask target l)
          (omega arith, refl, refl, refl) in
      let ten = download_size_lem l.total_bytes (omega (arith, e)) in
      let rec =
        loop-IsExact css (read_body target cs (ask target l)) (k ∙ live) full
          (omega (arith, t, p, e)) (subst (All (λ k. k ≡ chunk_size_mb)) (sym a) (ten, fair)) in
      rw (loop-served cs css l live (omega (arith, e)))
        (rec.0, rec.1, rec.2 ∙ omega (arith, ap length a))

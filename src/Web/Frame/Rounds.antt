-- ===== src/Web/Frame/Rounds.antt =====
-- The loop of `FrameDecoder.push` of frame_codec.ts: one round, and the rounds over a buffer that
-- grows at its end.
use trpc_proto.Base.{
  ℕ, zero, suc, ◌+◌, ◌≤◌, ◌<◌, ◌≡◌, refl, sym, ap, ◌∙◌, ◌⊎◌, inl, inr, true, false, List, [], ◌∷◌,
  ◌++◌, Option, none, some, arith, ltb, if◌then◌else◌, Bytes, length, take, drop, length-append,
  take-append, drop-append, Bool-cases, length-drop,
}
use trpc_proto.Web.Frame.{
  Frame, FrameError, Result, ok, err, ◌>>=◌, Utf8, word, make_frame, next_frame, drain,
}

five_more : (n : ℕ) → 5 + n ≡ suc (suc (suc (suc (suc n))))
five_more n = omega arith

pub Result-cases {ℓ} :
    {A : Type ℓ} (r : Result A) → ((e : FrameError) × (r ≡ err e)) ⊎ ((a : A) × (r ≡ ok a))
Result-cases (ok a) = inr (a, refl)
Result-cases (err e) = inl (e, refl)

module _ (utf8 : Utf8) where
  pub next_frame_short : (b : Bytes) → length b < 5 → next_frame utf8 b ≡ ok none
  unfolding next_frame
  next_frame_short b h = ground arith

  -- What a round of the loop does with a whole header.
  pub next_frame_header :
      (f b0 b1 b2 b3 : ℕ) (rest : Bytes)
      → next_frame utf8 (f ∷ b0 ∷ b1 ∷ b2 ∷ b3 ∷ rest) ≡ (
          if ltb (length rest) (word b0 b1 b2 b3)
          then ok none
          else make_frame utf8 f (take (word b0 b1 b2 b3) rest) (drop (word b0 b1 b2 b3) rest))
  unfolding next_frame
  next_frame_header f b0 b1 b2 b3 rest =
      ground (
        arith,
        ap (λ (n : ℕ). drop n (f ∷ b0 ∷ b1 ∷ b2 ∷ b3 ∷ rest)) (five_more (word b0 b1 b2 b3)),
      )

  pub next_frame_partial :
      (f b0 b1 b2 b3 : ℕ) (rest : Bytes)
      → ltb (length rest) (word b0 b1 b2 b3) ≡ true
      → next_frame utf8 (f ∷ b0 ∷ b1 ∷ b2 ∷ b3 ∷ rest) ≡ ok none
  next_frame_partial f b0 b1 b2 b3 rest short = next_frame_header f b0 b1 b2 b3 rest ∙ rw short

  -- A round that finds a frame, or throws, is not changed by what follows in the buffer.
  abbrev pub extend : Result (Option (Frame × Bytes)) → Bytes → Result (Option (Frame × Bytes))
  extend (err e) more = err e
  extend (ok none) more = ok none
  extend (ok (some (frame, rest))) more = ok (some (frame, rest ++ more))

  make_frame-append :
      (f : ℕ) (payload rest more : Bytes)
      → make_frame utf8 f payload (rest ++ more) ≡ extend (make_frame utf8 f payload rest) more
  unfolding make_frame
  make_frame-append f payload rest more = ground arith

  make_frame-ne-none : (f : ℕ) (payload rest : Bytes) → ¬ (make_frame utf8 f payload rest ≡ ok none)
  unfolding make_frame
  make_frame-ne-none f payload rest e = ground arith

  pub next_frame-append :
      (b more : Bytes)
      → (next_frame utf8 b ≡ ok none)
        ⊎ (next_frame utf8 (b ++ more) ≡ extend (next_frame utf8 b) more)
  next_frame-append (f ∷ b0 ∷ b1 ∷ b2 ∷ b3 ∷ rest) more =
      let w = word b0 b1 b2 b3 in
      elim (Bool-cases (ltb (length rest) w)) [
        | inl short ↦ inl (next_frame_partial f b0 b1 b2 b3 rest short)
        | inr whole ↦ inr (
            next_frame_header f b0 b1 b2 b3 (rest ++ more)
            ∙ rw
                (
                  (let longer : ltb (length (rest ++ more)) w ≡ false =
                        ground (arith, length-append rest more) in
                      longer),
                  take-append w rest more (ground arith),
                  drop-append w rest more (ground arith),
                  make_frame-append f (take w rest) (drop w rest) more,
                )
                (ap (λ r. extend r more) (sym (next_frame_header f b0 b1 b2 b3 rest ∙ rw whole))))
      ]
  next_frame-append b more = inl (next_frame_short b (omega arith))

  make_frame_rest :
      (f : ℕ) (payload rest : Bytes) {frame : Frame} {left : Bytes}
      → make_frame utf8 f payload rest ≡ ok (some (frame, left))
      → left ≡ rest
  unfolding make_frame
  make_frame_rest f payload rest e = ground arith

  -- A frame takes its header at least.
  pub next_frame_shrinks :
      (b : Bytes) {frame : Frame} {rest : Bytes}
      → next_frame utf8 b ≡ ok (some (frame, rest))
      → length rest + 5 ≤ length b
  next_frame_shrinks (f ∷ b0 ∷ b1 ∷ b2 ∷ b3 ∷ r) e =
      let w = word b0 b1 b2 b3 in
      elim (Bool-cases (ltb (length r) w)) [
        | inl short ↦ cc (next_frame_partial f b0 b1 b2 b3 r short)
        | inr whole ↦
            let read = next_frame_header f b0 b1 b2 b3 r in
            let made = (rw whole at (rw read at e)) in
            rw (make_frame_rest f (take w r) (drop w r) made) (omega (arith, length-drop w r))
      ]
  next_frame_shrinks b e = cc (next_frame_short b (omega arith))

  -- Enough fuel: more than there are bytes.
  pub drain_stable :
      (k m : ℕ) (b : Bytes) → length b < k → length b < m → drain utf8 k b ≡ drain utf8 m b
  unfolding drain
  drain_stable zero m b h l = absurd (omega arith)
  drain_stable (suc k) zero b h l = absurd (omega arith)
  drain_stable (suc k) (suc m) b h l = elim (Result-cases (next_frame utf8 b)) [
    | inl (e, thrown) ↦ rw thrown
    | inr (none, ends) ↦ rw ends
    | inr (some (frame, rest), found) ↦
        let shorter = next_frame_shrinks b found in
        rw (found, drain_stable k m rest (omega arith) (omega arith))
  ]

  -- What is left in the buffer holds no whole frame.
  abbrev pub IsDrained : Bytes → Type 0
  IsDrained b = next_frame utf8 b ≡ ok none

  -- The frames of the first part, and those that the rest of it and the second part make.
  abbrev pub prepend : List Frame → Result (Bytes × List Frame) → Result (Bytes × List Frame)
  prepend frames r = r >>= λ out. ok (out.0, frames ++ out.1)

  prepend-nil : (r : Result (Bytes × List Frame)) → prepend [] r ≡ r
  prepend-nil (ok out) = refl
  prepend-nil (err e) = refl

  prepend-cons :
      (frame : Frame) (frames : List Frame) (r : Result (Bytes × List Frame))
      → prepend (frame ∷ []) (prepend frames r) ≡ prepend (frame ∷ frames) r
  prepend-cons frame frames (ok out) = refl
  prepend-cons frame frames (err e) = refl

  pub drain_step :
      (k : ℕ) (b : Bytes) {frame : Frame} {rest : Bytes}
      → next_frame utf8 b ≡ ok (some (frame, rest))
      → drain utf8 (suc k) b ≡ prepend (frame ∷ []) (drain utf8 k rest)
  unfolding drain
  drain_step k b found = rw found

  pub drain_ends : (k : ℕ) (b : Bytes) → IsDrained b → drain utf8 (suc k) b ≡ ok (b, [])
  unfolding drain
  drain_ends k b ends = rw ends

  pub drain_throws :
      (k : ℕ) (b : Bytes) {e : FrameError}
      → next_frame utf8 b ≡ err e
      → drain utf8 (suc k) b ≡ err e
  unfolding drain
  drain_throws k b thrown = rw thrown

  pub drain-IsDrained :
      (k : ℕ) (b : Bytes) {left : Bytes} {frames : List Frame}
      → drain utf8 k b ≡ ok (left, frames)
      → IsDrained left
  drain-IsDrained zero b e = unfold drain in cc
  drain-IsDrained (suc k) b e = elim (Result-cases (next_frame utf8 b)) [
    | inl (x, thrown) ↦ cc (drain_throws k b thrown)
    | inr (none, ends) ↦ ground (arith, drain_ends k b ends)
    | inr (some (frame, rest), found) ↦ elim (Result-cases (drain utf8 k rest)) [
      | inl (x, thrown) ↦ ground (arith, drain_step k b found)
      | inr ((left', later), rec) ↦ ground (arith, drain_step k b found, drain-IsDrained k rest rec)
    ]
  ]

  prepend->>= :
      (frame : Frame) (r : Result (Bytes × List Frame)) (g : Bytes → Result (Bytes × List Frame))
      → prepend (frame ∷ []) (r >>= λ out. prepend out.1 (g out.0))
        ≡ (prepend (frame ∷ []) r >>= λ out. prepend out.1 (g out.0))
  prepend->>= frame (ok out) g = prepend-cons frame out.1 (g out.0)
  prepend->>= frame (err e) g = refl

  pub drain-append :
      (k m n : ℕ) (b more : Bytes)
      → length (b ++ more) < k
      → length b < m
      → length (b ++ more) < n
      → drain utf8 k (b ++ more)
        ≡ (drain utf8 m b >>= λ out. prepend out.1 (drain utf8 n (out.0 ++ more)))
  drain-append zero m n b more hk hm hn = absurd (omega arith)
  drain-append (suc k) zero n b more hk hm hn = absurd (omega arith)
  drain-append (suc k) (suc m) n b more hk hm hn = elim (Result-cases (next_frame utf8 b)) [
    | inl (x, thrown) ↦ elim (next_frame-append b more) [
      | inl ends ↦ cc
      | inr same ↦ rw (drain_throws m b thrown) (drain_throws k (b ++ more) (same ∙ rw thrown))
    ]
    | inr (none, ends) ↦
        rw (drain_ends m b ends) (drain_stable (suc k) n (b ++ more) hk hn ∙ sym (prepend-nil _))
    | inr (some (frame, rest), found) ↦ elim (next_frame-append b more) [
      | inl ends ↦ cc
      | inr same ↦
          let shorter = next_frame_shrinks b found in
          let sizes : (length (rest ++ more) ≡ length rest + length more)
              × (length (b ++ more) ≡ length b + length more) =
            (length-append rest more, length-append b more) in
          let found' : next_frame utf8 (b ++ more) ≡ ok (some (frame, rest ++ more)) =
            same ∙ rw found in
          rw
            (
              drain_step k (b ++ more) found',
              drain_step m b found,
              drain-append k m n rest more (omega (arith, sizes)) (omega (arith, sizes))
                  (omega (arith, sizes)),
            )
            (prepend->>= frame (drain utf8 m rest) (λ left. drain utf8 n (left ++ more)))
    ]
  ]

  pub drain_left_le :
      (k : ℕ) (b : Bytes) {left : Bytes} {frames : List Frame}
      → drain utf8 k b ≡ ok (left, frames)
      → length left ≤ length b
  drain_left_le zero b e = unfold drain in cc
  drain_left_le (suc k) b e = elim (Result-cases (next_frame utf8 b)) [
    | inl (x, thrown) ↦ cc (drain_throws k b thrown)
    | inr (none, ends) ↦ ground (arith, drain_ends k b ends)
    | inr (some (frame, rest), found) ↦ elim (Result-cases (drain utf8 k rest)) [
      | inl (x, thrown) ↦ ground (arith, drain_step k b found)
      | inr ((left', later), rec) ↦
          ground (arith, drain_step k b found, drain_left_le k rest rec, next_frame_shrinks b found)
    ]
  ]

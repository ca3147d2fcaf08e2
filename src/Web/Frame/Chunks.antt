-- ===== src/Web/Frame/Chunks.antt =====
-- The decoder of frame_codec.ts does not depend on how its input is cut into chunks.
use trpc_proto.Base.{
  ℕ, suc, ◌≤◌, ◌≡◌, refl, ap, ◌∙◌, inl, inr, List, [], ◌∷◌, ◌++◌, append_assoc, append-nil, Option,
  none, some, arith, Bytes, length, length-append, concat,
}
use trpc_proto.Web.Frame.{Frame, FrameError, ok, err, ◌>>=◌, Utf8, drain, push, decode_from, decode}
use trpc_proto.Web.Frame.Rounds.{
  Result-cases, IsDrained, prepend, drain_stable, drain_ends, drain-IsDrained, drain_left_le,
  drain-append, next_frame_short,
}

module _ (utf8 : Utf8) where
  push_left :
      (b chunk : Bytes) {left : Bytes} {frames : List Frame}
      → push utf8 b chunk ≡ ok (left, frames)
      → IsDrained utf8 left × (length left ≤ length (b ++ chunk))
  unfolding push
  push_left b chunk e = (
    drain-IsDrained utf8 (suc (length (b ++ chunk))) (b ++ chunk) e,
    drain_left_le utf8 (suc (length (b ++ chunk))) (b ++ chunk) e,
  )

  -- Pushing two chunks one after the other is pushing them as one.
  push-append :
      (b first second : Bytes)
      → push utf8 b (first ++ second)
        ≡ (push utf8 b first >>= λ out. prepend utf8 out.1 (push utf8 out.0 second))
  push-append b first second = elim (Result-cases (push utf8 b first)) [
    | inl (e, thrown) ↦ rw thrown (joined ∙ rw thrown)
    | inr ((left, frames), pushed) ↦
        let (_, small) = push_left b first pushed in
        rw pushed (
          joined
          ∙ rw pushed (
              ap (prepend utf8 frames) (
                unfold push in
                drain_stable utf8 n (suc (length (left ++ second))) (left ++ second)
                  (omega
                    (arith, length-append left second, length-append (b ++ first) second, small))
                  (omega arith))))
  ]
    where
      n : ℕ
      n = suc (length ((b ++ first) ++ second))

      joined :
          push utf8 b (first ++ second)
          ≡ (push utf8 b first >>= λ out. prepend utf8 out.1 (drain utf8 n (out.0 ++ second)))
      joined =
          unfold push in
          rw (← append_assoc b first second) (
            drain-append utf8 n (suc (length (b ++ first))) n (b ++ first) second (omega arith)
              (omega arith) (omega arith))

  push_nothing : (b : Bytes) → IsDrained utf8 b → push utf8 b [] ≡ ok (b, [])
  unfolding push
  push_nothing b h = rw append-nil (drain_ends utf8 (length b) b h)

  -- A stream of chunks against the same bytes in one chunk.
  abbrev Agrees : List Frame × Option FrameError → List Frame × Option FrameError → Type 0
  Agrees p q = (p.1 ≡ q.1) × (p.1 ≡ none → p.0 ≡ q.0)

  decode_from_throws :
      (b chunk : Bytes) (chunks : List Bytes) {e : FrameError}
      → push utf8 b chunk ≡ err e
      → decode_from utf8 b (chunk ∷ chunks) ≡ ([], some e)
  unfolding decode_from
  decode_from_throws b chunk chunks thrown = rw (thrown, decode_from)

  pub decode_from_goes_on :
      (b chunk : Bytes) (chunks : List Bytes) {left : Bytes} {frames : List Frame}
      → push utf8 b chunk ≡ ok (left, frames)
      → decode_from utf8 b (chunk ∷ chunks)
        ≡ (frames ++ (decode_from utf8 left chunks).0, (decode_from utf8 left chunks).1)
  unfolding decode_from
  decode_from_goes_on b chunk chunks pushed = rw (pushed, decode_from)

  push_then :
      (b first second : Bytes) {left : Bytes} {frames : List Frame}
      → push utf8 b first ≡ ok (left, frames)
      → push utf8 b (first ++ second) ≡ prepend utf8 frames (push utf8 left second)
  push_then b first second pushed = push-append b first second ∙ rw pushed

  push_then_throws :
      (b first second : Bytes) {e : FrameError}
      → push utf8 b first ≡ err e
      → push utf8 b (first ++ second) ≡ err e
  push_then_throws b first second thrown = push-append b first second ∙ rw thrown

  -- Where the first chunk goes through, with the induction hypothesis for the rest.
  Agrees-goes_on :
      (b chunk : Bytes) (chunks : List Bytes) (left : Bytes) (frames : List Frame)
      → push utf8 b chunk ≡ ok (left, frames)
      → Agrees (decode_from utf8 left chunks) (decode_from utf8 left (concat chunks ∷ []))
      → Agrees
          (decode_from utf8 b (chunk ∷ chunks))
          (decode_from utf8 b ((chunk ++ concat chunks) ∷ []))
  Agrees-goes_on b chunk chunks left frames pushed ih =
      elim (Result-cases (push utf8 left (concat chunks))) [
        | inl (e, thrown) ↦
            let joined : push utf8 b (chunk ++ concat chunks) ≡ err e =
              push_then b chunk (concat chunks) pushed ∙ rw thrown in
            let whole = decode_from_throws b (chunk ++ concat chunks) [] joined in
            let part = decode_from_goes_on b chunk chunks pushed in
            let rest = decode_from_throws left (concat chunks) [] thrown in
            ground (arith, whole, part, rest)
        | inr ((left', later), more) ↦
            let joined : push utf8 b (chunk ++ concat chunks) ≡ ok (left', frames ++ later) =
              push_then b chunk (concat chunks) pushed ∙ rw more in
            let whole = decode_from_goes_on b (chunk ++ concat chunks) [] joined in
            let part = decode_from_goes_on b chunk chunks pushed in
            let rest = decode_from_goes_on left (concat chunks) [] more in
            ground
              (arith, whole, part, rest, append_assoc frames later (decode_from utf8 left' []).0)
      ]

  decode_from-concat :
      (chunks : List Bytes) (b : Bytes)
      → IsDrained utf8 b
      → Agrees (decode_from utf8 b chunks) (decode_from utf8 b (concat chunks ∷ []))
  decode_from-concat [] b h = rw (decode_from_goes_on b [] [] (push_nothing b h)) (refl, λ _. refl)
  decode_from-concat (chunk ∷ chunks) b h = elim (Result-cases (push utf8 b chunk)) [
    | inl (e, thrown) ↦
        rw
          (
            decode_from_throws b chunk chunks thrown,
            decode_from_throws b (chunk ++ concat chunks) []
                (push_then_throws b chunk (concat chunks) thrown),
          )
          (refl, λ none. cc)
    | inr ((left, frames), pushed) ↦
        Agrees-goes_on b chunk chunks left frames pushed
          (decode_from-concat chunks left (push_left b chunk pushed).0)
  ]

decode-Agrees :
    (utf8 : Utf8) (chunks : List Bytes)
    → Agrees utf8 (decode utf8 chunks) (decode utf8 (concat chunks ∷ []))
unfolding decode
decode-Agrees utf8 chunks =
    decode_from-concat utf8 chunks [] (next_frame_short utf8 [] (omega arith))

-- However a body is cut into chunks, the decoder throws what it throws for the whole body in one
-- chunk.
pub decode-concat_error :
    (utf8 : Utf8) (chunks : List Bytes)
    → (decode utf8 chunks).1 ≡ (decode utf8 (concat chunks ∷ [])).1
decode-concat_error utf8 chunks = (decode-Agrees utf8 chunks).0

-- However a body is cut into chunks, if the decoder does not throw on the whole body in one chunk,
-- then it yields the same frames in the same order, and does not throw.
pub decode-concat :
    (utf8 : Utf8) (chunks : List Bytes)
    → (decode utf8 (concat chunks ∷ [])).1 ≡ none
    → decode utf8 chunks ≡ decode utf8 (concat chunks ∷ [])
decode-concat utf8 chunks fine = ground (arith, decode-Agrees utf8 chunks)

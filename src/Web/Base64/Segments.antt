-- ===== src/Web/Base64/Segments.antt =====
-- The segments that the base64 decoder makes of a text, however it is cut.
use trpc_proto.Base.{
  ℕ, zero, suc, ◌+◌, ◌%◌, ◌≤◌, ◌<◌, ◌≡◌, ◌↔◌, refl, sym, ap, ◌∙◌, List, [], ◌∷◌, ◌++◌, none, some,
  arith, Option, Bytes, ltb, length, take, drop, concat, All, All-append, append_assoc, append-nil,
  length-append, length-take, length-drop, take-append-drop, Bool-cases, Option-cases, inl, inr,
}
use trpc_proto.Base.Text.{Text, index_of}
use trpc_proto.Web.Base64.{
  decode_segments, finish_text, decode_text, padding, strip_spaces, encoded_length,
  complete_segments, push_text, segments_from,
}

strip_spaces-append : (s t : Text) → strip_spaces (s ++ t) ≡ strip_spaces s ++ strip_spaces t
unfolding strip_spaces
strip_spaces-append [] t = refl
strip_spaces-append (c ∷ s) t = ground (arith, strip_spaces-append s t)

index_of-lt : (c : ℕ) (s : Text) {i : ℕ} → index_of c s ≡ some i → i < length s
unfolding index_of
index_of-lt c [] e = absurd (cc)
index_of-lt c (d ∷ s) {i} e = elim (Option-cases (index_of c s)) [
  | inl gone ↦ ground arith
  | inr (j, found) ↦ let low = index_of-lt c s found in ground arith
]

encoded_length_cases :
    (pending : Text)
    → 4 ≤ length pending
    → (encoded_length pending % 4 ≡ 0)
      × (1 ≤ encoded_length pending)
      × (encoded_length pending ≤ length pending + 3)
unfolding encoded_length
encoded_length_cases pending h = elim (Option-cases (index_of padding pending)) [
  | inl plain ↦ rw (plain, encoded_length) (omega arith, omega arith, omega arith)
  | inr (i, found) ↦
      let low = index_of-lt padding pending found in
      rw (found, encoded_length) (omega arith, omega arith, omega arith)
]

-- A segment is whole quads of characters, one at least.
abbrev pub IsSegment : Text → Type 0
IsSegment segment = (1 ≤ length segment) × (length segment % 4 ≡ 0)

-- What a cut of a text into segments and a rest has to be.
pub record IsCut (text : Text) (cut : List Text × Text) : Type 0 where
  pub whole : concat cut.0 ++ cut.1 ≡ text
  pub quads : All IsSegment cut.0

-- A round of the loop: it ends where the text that is pending is empty or not whole quads, or takes
-- a segment.
data Round (fuel : ℕ) (pending : Text) : Type 0 where
  ends :
      complete_segments (suc fuel) pending ≡ ([], pending)
      → (length pending % 4 ≡ 0 → length pending ≡ 0)
      → Round fuel pending
  takes :
      (n : ℕ)
      → 1 ≤ n
      → n ≤ length pending
      → n % 4 ≡ 0
      → complete_segments (suc fuel) pending ≡ (
        take n pending ∷ (complete_segments fuel (drop n pending)).0,
        (complete_segments fuel (drop n pending)).1,
      )
      → Round fuel pending

round : (fuel : ℕ) (pending : Text) → Round fuel pending
unfolding complete_segments
round fuel pending = elim (Bool-cases (ltb (length pending) 4)) [
  | inl short ↦ ends (rw short) (λ h. ground arith)
  | inr long ↦
      let (quads, some_length, near) = encoded_length_cases pending (ground arith) in
      elim (Bool-cases (ltb (length pending) (encoded_length pending))) [
        | inl missing ↦ ends (ground arith) (λ h. absurd (ground arith))
        | inr there ↦ takes (encoded_length pending) some_length (ground arith) quads (ground arith)
      ]
]

complete_segments-IsCut :
    (fuel : ℕ) (pending : Text) → IsCut pending (complete_segments fuel pending)
complete_segments-IsCut zero pending =
    unfold complete_segments in record { whole = refl; quads = tt }
complete_segments-IsCut (suc fuel) pending =
    go (round fuel pending) (λ n. complete_segments-IsCut fuel (drop n pending))
  where
    go :
        Round fuel pending
        → ((n : ℕ) → IsCut (drop n pending) (complete_segments fuel (drop n pending)))
        → IsCut pending (complete_segments (suc fuel) pending)
    go (ends result whole_quads) ih = rw result (record { whole = refl; quads = tt })
    go (takes n positive fits quad result) ih = rw result (record {
      whole =
          append_assoc (take n pending) (concat (complete_segments fuel (drop n pending)).0)
            (complete_segments fuel (drop n pending)).1
          ∙ (ap (take n pending ++◌) (ih n).whole ∙ take-append-drop n pending);
      quads = (
        (ground (arith, length-take n pending), ground (arith, length-take n pending)),
        (ih n).quads,
      );
    })

-- With enough fuel, nothing is left exactly if the text is whole quads.
complete_segments-left :
    (fuel : ℕ) (pending : Text)
    → length pending ≤ fuel
    → length pending % 4 ≡ 0
    → length (complete_segments fuel pending).1 ≡ 0
complete_segments-left zero pending enough h = unfold complete_segments in omega arith
complete_segments-left (suc fuel) pending enough h =
    go (round fuel pending) (λ n. complete_segments-left fuel (drop n pending))
  where
    go :
        Round fuel pending
        → ((n : ℕ)
            → length (drop n pending) ≤ fuel
            → length (drop n pending) % 4 ≡ 0
            → length (complete_segments fuel (drop n pending)).1 ≡ 0)
        → length (complete_segments (suc fuel) pending).1 ≡ 0
    go (ends result whole_quads) ih = rw result (whole_quads h)
    go (takes n positive fits quad result) ih =
        rw result
          (ih n (omega (arith, length-drop n pending)) (omega (arith, length-drop n pending)))

concat-append : (xs ys : List Text) → concat (xs ++ ys) ≡ concat xs ++ concat ys
concat-append [] ys = refl
concat-append (x ∷ xs) ys =
    ap (x ++◌) (concat-append xs ys) ∙ sym (append_assoc x (concat xs) (concat ys))

length-concat : (segments : List Text) → All IsSegment segments → length (concat segments) % 4 ≡ 0
length-concat [] h = refl
length-concat (segment ∷ segments) (one, h) =
    omega (arith, length-append segment (concat segments), length-concat segments h)

IsCut-append :
    (text more : Text) (first : List Text × Text) (later : List Text × Text)
    → IsCut text first
    → IsCut (first.1 ++ more) later
    → IsCut (text ++ more) (first.0 ++ later.0, later.1)
IsCut-append text more (segments, left) (segments', left') c d = record {
  whole =
      ap (◌++ left') (concat-append segments segments')
      ∙ (append_assoc (concat segments) (concat segments') left'
          ∙ (ap (concat segments ++◌) d.whole
              ∙ (sym (append_assoc (concat segments) left more) ∙ ap (◌++ more) c.whole)));
  quads = All-append IsSegment segments segments' c.quads d.quads;
}

push_text-IsCut :
    (pending chunk : Text) → IsCut (pending ++ strip_spaces chunk) (push_text pending chunk)
unfolding push_text
push_text-IsCut pending chunk = complete_segments-IsCut _ (pending ++ strip_spaces chunk)

strip_spaces-concat :
    (pending chunk : Text) (chunks : List Text)
    → (pending ++ strip_spaces chunk) ++ strip_spaces (concat chunks)
      ≡ pending ++ strip_spaces (concat (chunk ∷ chunks))
strip_spaces-concat pending chunk chunks =
    append_assoc pending (strip_spaces chunk) (strip_spaces (concat chunks))
    ∙ ap (pending ++◌) (sym (strip_spaces-append chunk (concat chunks)))

segments_from-IsCut :
    (pending : Text) (chunks : List Text)
    → IsCut (pending ++ strip_spaces (concat chunks)) (segments_from pending chunks)
unfolding segments_from
segments_from-IsCut pending [] =
    unfold strip_spaces in
    rw (append-nil pending) (complete_segments-IsCut (length pending) pending)
segments_from-IsCut pending (chunk ∷ chunks) = rw (← strip_spaces-concat pending chunk chunks) (
    IsCut-append (pending ++ strip_spaces chunk) (strip_spaces (concat chunks))
      (push_text pending chunk) (segments_from (push_text pending chunk).1 chunks)
      (push_text-IsCut pending chunk) (segments_from-IsCut (push_text pending chunk).1 chunks))

-- What a cut leaves is whole quads exactly if the text is.
IsCut-length :
    (text : Text) (cut : List Text × Text) → IsCut text cut → length text % 4 ≡ length cut.1 % 4
IsCut-length text (segments, left) c =
    omega (
      arith,
      ap length c.whole,
      length-append (concat segments) left,
      length-concat segments c.quads,
    )

segments_from-left :
    (pending : Text) (chunks : List Text)
    → length (pending ++ strip_spaces (concat chunks)) % 4 ≡ 0
    → length (segments_from pending chunks).1 ≡ 0
unfolding segments_from
segments_from-left pending [] h =
    complete_segments-left (length pending) pending (omega arith)
      (unfold strip_spaces in rw (append-nil pending) at h)
segments_from-left pending (chunk ∷ chunks) h =
    let total =
      IsCut-length (pending ++ strip_spaces chunk) (push_text pending chunk)
        (push_text-IsCut pending chunk) in
    segments_from-left (push_text pending chunk).1 chunks (
      omega (
        arith,
        total,
        ap length (strip_spaces-concat pending chunk chunks),
        length-append (pending ++ strip_spaces chunk) (strip_spaces (concat chunks)),
        length-append (push_text pending chunk).1 (strip_spaces (concat chunks)),
      ))

-- However base64 text is cut into chunks, the segments that are decoded, and what is left at the end,
-- are together the text without its white space; each segment is whole quads of characters, one
-- at least; and something is left exactly if the text without white space is not whole quads.
pub segments_from-concat :
    (chunks : List Text)
    → IsCut (strip_spaces (concat chunks)) (segments_from [] chunks)
      × ((length (segments_from [] chunks).1 ≡ 0) ↔ (length (strip_spaces (concat chunks)) % 4 ≡ 0))
segments_from-concat chunks =
    let cut = segments_from-IsCut [] chunks in
    (
      cut,
      (
        λ empty.
            omega
              (arith, IsCut-length (strip_spaces (concat chunks)) (segments_from [] chunks) cut),
        segments_from-left [] chunks,
      ),
    )

module _ (atob : Text → Option Bytes) where
  decode_segments-append :
      (xs ys : List Text) (decoded : List Bytes)
      → decode_segments atob (xs ++ ys) ≡ some decoded
      → (first : List Bytes) × (later : List Bytes) × (decode_segments atob xs ≡ some first)
        × (decode_segments atob ys ≡ some later)
        × (decoded ≡ first ++ later)
  decode_segments-append [] ys decoded h = ([], decoded, refl, h, refl)
  decode_segments-append (x ∷ xs) ys decoded h = elim (Option-cases (atob x)) [
    | inl broken ↦ absurd (ground (arith, broken))
    | inr (bytes, read) ↦ elim (Option-cases (decode_segments atob (xs ++ ys))) [
      | inl broken ↦ absurd (ground (arith, read, broken))
      | inr (rest, all_read) ↦
          let (first, later, e, e', same) = decode_segments-append xs ys rest all_read in
          let whole : bytes ∷ rest ≡ decoded = ground (arith, read, all_read) in
          (
            bytes ∷ first,
            later,
            rw (read, e, decode_segments) refl,
            e',
            sym whole ∙ ap (◌∷◌ bytes) same,
          )
    ]
  ]

  finish_text-left :
      (cut : List Text × Text) (decoded : List Bytes)
      → decode_segments atob cut.0 ≡ some decoded
      → length cut.1 ≡ 0
      → finish_text atob cut ≡ (decoded, none)
  finish_text-left (segments, left) decoded h k = ground (arith, h, k)

  -- If `atob` decodes every segment and nothing is left, the decoder yields the segments' bytes.
  pub decode_text-segments_from :
      (pending : Text) (chunks : List Text) (decoded : List Bytes)
      → decode_segments atob (segments_from pending chunks).0 ≡ some decoded
      → length (segments_from pending chunks).1 ≡ 0
      → decode_text atob pending chunks ≡ (decoded, none)
  unfolding decode_text segments_from
  decode_text-segments_from pending [] decoded h k =
      finish_text-left (complete_segments (length pending) pending) decoded h k
  decode_text-segments_from pending (chunk ∷ chunks) decoded h k =
      let (first, later, e, e', same) =
        decode_segments-append (push_text pending chunk).0 _ decoded h in
      rw (e, decode_text-segments_from (push_text pending chunk).1 chunks later e' k, decode_text)
        (ap (λ d. (d, none)) (sym same))

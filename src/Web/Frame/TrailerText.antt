-- ===== src/Web/Frame/TrailerText.antt =====
-- The text of a trailer frame, from the encoder of frame_codec.ts to its decoder.
use trpc_proto.Base.{
  ℕ, ◌+◌, ◌≡◌, ◌∙◌, sym, ap, refl, false, List, [], ◌∷◌, ◌++◌, map, append-nil, append_assoc, none,
  some, arith, ◌==◌, has, has-append, length, take, drop, take-length_append, All, Bytes,
  Bool-cases, inl, inr,
}
use native.Mathlib.Numerals.{unary_clauses}
use trpc_proto.Base.Text.{
  Text, text_eq, text_eq_iff, to_lower, trim, trim_start, is_space, index_of, lookup, insert,
}
use trpc_proto.Web.Frame.{
  Trailers, Utf8, hex_digit, escape_byte, escape_bytes, encode_grpc_message, split_lines, add_line,
  add_lines, join_lines, trailer_line, trailer_block, decode_trailers,
}

-- A name that the decoder reads as it is written.
pub record IsName (name : Text) : Type 0 where
  pub lower : to_lower name ≡ name
  pub trimmed : trim name ≡ name
  pub not_empty : (length name == 0) ≡ false
  pub no_colon : has name b':' ≡ false
  pub no_return : has name b'\r' ≡ false

-- No two entries have the same name.
abbrev pub Differ : Trailers → Type 0
Differ [] = Unit
Differ ((name, value) ∷ entries) = (lookup name entries ≡ none) × Differ entries

index_of-append :
    (c : ℕ) (s rest : Text) → has s c ≡ false → index_of c (s ++ (c ∷ rest)) ≡ some (length s)
unfolding index_of
index_of-append c [] rest h = ground arith
index_of-append c (d ∷ s) rest h = ground (arith, index_of-append c s rest (ground arith))

split_lines_empty : (rest : Text) → split_lines (b'\r' ∷ b'\n' ∷ rest) ≡ [] ∷ split_lines rest
unfolding split_lines
split_lines_empty rest = refl

split_lines_longer :
    (c d : ℕ) (s line : Text) (lines : List Text)
    → (c == b'\r') ≡ false
    → split_lines (d ∷ s) ≡ line ∷ lines
    → split_lines (c ∷ d ∷ s) ≡ (c ∷ line) ∷ lines
unfolding split_lines
split_lines_longer c d s line lines h e = rw (h, e)

split_lines-line :
    (line rest : Text)
    → has line b'\r' ≡ false
    → split_lines (line ++ (b'\r' ∷ b'\n' ∷ rest)) ≡ line ∷ split_lines rest
split_lines-line [] rest h = split_lines_empty rest
split_lines-line (c ∷ []) rest h =
    split_lines_longer c b'\r' (b'\n' ∷ rest) [] (split_lines rest) (ground arith)
      (split_lines_empty rest)
split_lines-line (c ∷ d ∷ line) rest h =
    split_lines_longer c d (line ++ (b'\r' ∷ b'\n' ∷ rest)) (d ∷ line) (split_lines rest)
      (ground arith) (split_lines-line (d ∷ line) rest (ground arith))

-- Behind the last line there is an empty one.
split_lines-join_lines :
    (line : Text) (lines : List Text)
    → All (λ l. has l b'\r' ≡ false) (line ∷ lines)
    → split_lines (join_lines (line ∷ lines)) ≡ (line ∷ lines) ++ ([] ∷ [])
split_lines-join_lines line [] (h, hs) = split_lines-line line [] h ∙ unfold split_lines in refl
split_lines-join_lines line (next ∷ lines) (h, hs) =
    split_lines-line line (join_lines (next ∷ lines)) h
    ∙ ap (◌∷◌ line) (split_lines-join_lines next lines hs)

has-escape_byte : (b : ℕ) → has (escape_byte b) b'\r' ≡ false
unfolding escape_byte hex_digit
has-escape_byte b = ground arith

has-escape_bytes : (bs : Bytes) → has (escape_bytes bs) b'\r' ≡ false
has-escape_bytes [] = refl
has-escape_bytes (b ∷ bs) =
    has-append (escape_byte b) (escape_bytes bs) b'\r' ∙ rw (has-escape_byte b, has-escape_bytes bs)

insert-fresh :
    (name value : Text) (found : Trailers)
    → lookup name found ≡ none
    → insert name value found ≡ found ++ ((name, value) ∷ [])
insert-fresh name value [] h = refl
insert-fresh name value ((n, v) ∷ found) h = elim (Bool-cases (text_eq n name)) [
  | inl same ↦ absurd (ground (arith, same))
  | inr other ↦ ground (arith, other, insert-fresh name value found (ground (arith, other)))
]

lookup-append_none :
    (name n value : Text) (found : Trailers)
    → lookup name found ≡ none
    → text_eq n name ≡ false
    → lookup name (found ++ ((n, value) ∷ [])) ≡ none
lookup-append_none name n value [] h other = rw other
lookup-append_none name n value ((m, v) ∷ found) h other = elim (Bool-cases (text_eq m name)) [
  | inl same ↦ absurd (ground (arith, same))
  | inr later ↦
      ground (arith, later, lookup-append_none name n value found (ground (arith, later)) other)
]

drop-suc_length : (c : ℕ) (s rest : Text) → drop (length s + 1) (s ++ (c ∷ rest)) ≡ rest
drop-suc_length c [] rest = refl
drop-suc_length c (d ∷ s) rest =
    simp unary_clauses (simp unary_clauses at (drop-suc_length c s rest))

add_line_at :
    (found : Trailers) (line : Text) (colon : ℕ)
    → index_of b':' line ≡ some colon
    → (colon == 0) ≡ false
    → add_line found line
      ≡ insert (to_lower (trim (take colon line))) (trim (drop (colon + 1) line)) found
unfolding add_line
add_line_at found line colon e h = rw (e, h, add_line)

add_line-name :
    (found : Trailers) (name text : Text)
    → IsName name
    → add_line found (name ++ (b':' ∷ b' ' ∷ text)) ≡ insert name (trim text) found
unfolding trim_start is_space
add_line-name found name text h =
    add_line_at found (name ++ (b':' ∷ b' ' ∷ text)) (length name)
      (index_of-append b':' name (b' ' ∷ text) h.no_colon) h.not_empty
    ∙ rw (
      take-length_append name (b':' ∷ b' ' ∷ text),
      drop-suc_length b':' name (b' ' ∷ text),
      h.trimmed,
      h.lower,
    )

add_line_empty : (found : Trailers) → add_line found [] ≡ found
unfolding add_line index_of
add_line_empty found = refl

module _ (utf8 : Utf8) where
  -- An entry as it is read: its value percent-encoded, without white space around it.
  abbrev pub received : Text × Text → Text × Text
  received (name, value) = (name, trim (encode_grpc_message utf8 value))

  add_line-trailer_line :
      (found : Trailers) (name value : Text)
      → IsName name
      → add_line found (trailer_line utf8 (name, value))
        ≡ insert name (trim (encode_grpc_message utf8 value)) found
  add_line-trailer_line found name value h =
      rw (h.lower) (add_line-name found name (encode_grpc_message utf8 value) h)

  has-trailer_line :
      (name value : Text) → IsName name → has (trailer_line utf8 (name, value)) b'\r' ≡ false
  unfolding encode_grpc_message
  has-trailer_line name value h = rw (h.lower) (
      has-append name (b':' ∷ b' ' ∷ encode_grpc_message utf8 value) b'\r'
      ∙ rw (h.no_return) (has-escape_bytes (utf8.encode value)))

  others_new :
      (name value : Text) (found entries : Trailers)
      → All (λ e. lookup e.0 found ≡ none) entries
      → lookup name entries ≡ none
      → All (λ e. lookup e.0 (found ++ ((name, value) ∷ [])) ≡ none) entries
  others_new name value found [] h new = tt
  others_new name value found ((n, v) ∷ entries) (first, h) new =
      elim (Bool-cases (text_eq n name)) [
        | inl same ↦ absurd (ground (arith, same))
        | inr other ↦ (
          lookup-append_none n name value found first
              (ground (arith, text_eq_iff n name, text_eq_iff name n)),
          others_new name value found entries h (ground (arith, other)),
        )
      ]

  add_lines-trailer_line :
      (found entries : Trailers)
      → All (λ e. IsName e.0) entries
      → Differ entries
      → All (λ e. lookup e.0 found ≡ none) entries
      → add_lines found (map (trailer_line utf8) entries ++ ([] ∷ []))
        ≡ found ++ map received entries
  add_lines-trailer_line found [] names differ new = add_line_empty found ∙ sym (append-nil found)
  add_lines-trailer_line found ((name, value) ∷ entries) (n, names) (first, differ) (here, new) =
      let value' = trim (encode_grpc_message utf8 value) in
      ap (λ f. add_lines f (map (trailer_line utf8) entries ++ ([] ∷ [])))
        (add_line-trailer_line found name value n ∙ insert-fresh name value' found here)
      ∙ (add_lines-trailer_line (found ++ ((name, value') ∷ [])) entries names differ
            (others_new name value' found entries new first)
          ∙ append_assoc found ((name, value') ∷ []) (map received entries))

  nothing_found : (entries : Trailers) → All (λ e. lookup {V = Text} e.0 [] ≡ none) entries
  nothing_found [] = tt
  nothing_found (e ∷ entries) = (refl, nothing_found entries)

  lines_no_return :
      (entries : Trailers)
      → All (λ e. IsName e.0) entries
      → All (λ l. has l b'\r' ≡ false) (map (trailer_line utf8) entries)
  lines_no_return [] names = tt
  lines_no_return ((name, value) ∷ entries) (n, names) =
      (has-trailer_line name value n, lines_no_return entries names)

  add_lines-join_lines :
      (entries : Trailers)
      → All (λ e. IsName e.0) entries
      → Differ entries
      → add_lines [] (split_lines (join_lines (map (trailer_line utf8) entries)))
        ≡ map received entries
  unfolding split_lines add_line index_of
  add_lines-join_lines [] names differ = refl
  add_lines-join_lines (e ∷ entries) names differ =
      rw
        (split_lines-join_lines (trailer_line utf8 e) (map (trailer_line utf8) entries)
          (lines_no_return (e ∷ entries) names))
        (add_lines-trailer_line [] (e ∷ entries) names differ (nothing_found (e ∷ entries)))

  -- If the text of a trailer frame is one that the platform's coder returns, and the names are
  -- lower-case, differ, and have no colon, no line break and no white space around them, then the decoder reads the entries in
  -- their order, each value percent-encoded and without white space around it.
  pub decode_trailers-trailer_block :
      (entries : Trailers)
      → All (λ e. IsName e.0) entries
      → Differ entries
      → utf8.decode (trailer_block utf8 entries) ≡ join_lines (map (trailer_line utf8) entries)
      → decode_trailers utf8 (trailer_block utf8 entries) ≡ map received entries
  unfolding decode_trailers
  decode_trailers-trailer_block entries names differ h =
      rw h (add_lines-join_lines entries names differ)

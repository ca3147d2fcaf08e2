-- ===== src/Schema/Text/Comments.antt =====
-- A comment stays within its comment lines.
use trpc_proto.Base.{
  ℕ, ◌≡◌, refl, true, false, ◌&&◌, List, [], ◌∷◌, ◌++◌, map, arith, ◌==◌, if◌then◌else◌, has,
  has-append, All, append_assoc,
}
use trpc_proto.Base.Text.{Text, codes, starts_with, starts_with-append}
use trpc_proto.Schema.Text.{comment_lines, emit_comment}

abbrev pub newline : ℕ
newline = b'\n'

-- A line of the file that is a comment from its indentation on.
abbrev pub IsCommentLine : Text → Text → Type 0
IsCommentLine indent line =
    (starts_with (indent ++ codes "//") line ≡ true) × (has line newline ≡ false)

comment_lines-newline : (s : Text) → All (λ line. has line newline ≡ false) (comment_lines s)
unfolding comment_lines
comment_lines-newline [] = (refl, tt)
comment_lines-newline (c ∷ s) = go c s (comment_lines s) (comment_lines-newline s)
  where
    go :
        (d : ℕ) (t : Text) (lines : List Text)
        → All (λ line. has line newline ≡ false) lines
        → All
            (λ line. has line newline ≡ false)
            (elim lines [
              | [] ↦ []
              | line ∷ rest ↦
                  if d == b'\n'
                  then [] ∷ line ∷ rest
                  else if d == b'\r' && starts_with (codes "\n") t
                  then line ∷ rest
                  else (d ∷ line) ∷ rest
            ])
    go d t [] h = tt
    go d t (line ∷ rest) h = ground arith

-- Every line that is emitted for a comment is a comment line, and none of them contains a line
-- break, so no text of a comment gets out of it.
pub emit_comment-IsCommentLine :
    (comment indent : Text)
    → has indent newline ≡ false
    → All (IsCommentLine indent) (emit_comment comment indent)
unfolding emit_comment
emit_comment-IsCommentLine [] indent h = tt
emit_comment-IsCommentLine (c ∷ s) indent h =
    prefixed (comment_lines (c ∷ s)) (comment_lines-newline (c ∷ s))
  where
    prefixed :
        (lines : List Text)
        → All (λ line. has line newline ≡ false) lines
        → All (IsCommentLine indent) (map (λ line. indent ++ (codes "// " ++ line)) lines)
    prefixed [] k = tt
    prefixed (line ∷ lines) (one, k) = (
      (
        rw (← append_assoc indent (codes "//") (b' ' ∷ line))
            (starts_with-append (indent ++ codes "//") (b' ' ∷ line)),
        ground (arith, has-append indent (codes "// " ++ line) newline),
      ),
      prefixed lines k,
    )

-- ===== src/Schema/Text/Imports.antt =====
-- The imports of a proto file are those of the types that its messages and methods name.
use trpc_proto.Base.{
  ◌≡◌, refl, Bool, false, ◌||◌, List, [], ◌∷◌, ◌++◌, none, some, arith, if◌then◌else◌, Option-cases,
  inl, inr,
}
use trpc_proto.Base.Text.{Text, text_eq, text_eq_iff, has_text}
use trpc_proto.Schema.WellKnown.{well_known_import}
use trpc_proto.Schema.Text.File.{import_paths, unique_texts, insert_text, sort_texts, imports_of}

-- Whether some of the names is imported from a path.
abbrev pub needs_import : Text → List Text → Bool
needs_import path [] = false
needs_import path (name ∷ names) =
    elim (well_known_import name) [ none ↦ false | some p ↦ text_eq p path ]
    || needs_import path names

has_text-append :
    (ss ts : List Text) (t : Text) → has_text (ss ++ ts) t ≡ has_text ss t || has_text ts t
has_text-append [] ts t = refl
has_text-append (s ∷ ss) ts t = ground (arith, has_text-append ss ts t)

has_text-unique_texts :
    (ts seen : List Text) (t : Text)
    → has_text (unique_texts ts seen) t ≡ has_text ts t || has_text seen t
has_text-unique_texts [] seen t = refl
has_text-unique_texts (u ∷ ts) seen t = ground (
  arith,
  has_text-unique_texts ts (if has_text seen u then seen else seen ++ (u ∷ [])) t,
  has_text-append seen (u ∷ []) t,
  text_eq_iff u t,
)

has_text-insert_text :
    (u t : Text) (ts : List Text) → has_text (insert_text u ts) t ≡ text_eq u t || has_text ts t
has_text-insert_text u t [] = refl
has_text-insert_text u t (s ∷ ts) = ground (arith, has_text-insert_text u t ts)

has_text-sort_texts : (ts : List Text) (t : Text) → has_text (sort_texts ts) t ≡ has_text ts t
has_text-sort_texts [] t = refl
has_text-sort_texts (u ∷ ts) t =
    ground (arith, has_text-insert_text u t (sort_texts ts), has_text-sort_texts ts t)

has_text-import_paths :
    (names : List Text) (path : Text) → has_text (import_paths names) path ≡ needs_import path names
has_text-import_paths [] path = refl
has_text-import_paths (name ∷ names) path = elim (Option-cases (well_known_import name)) [
  | inl unknown ↦ ground (arith, has_text-import_paths names path)
  | inr (p, known) ↦ ground (arith, has_text-import_paths names path)
]

-- A path is imported exactly if a type that is named comes from it.
pub has_text-imports_of :
    (names : List Text) (path : Text) → has_text (imports_of names) path ≡ needs_import path names
unfolding imports_of
has_text-imports_of names path = ground (
  arith,
  has_text-sort_texts (unique_texts (import_paths names) []) path,
  has_text-unique_texts (import_paths names) [] path,
  has_text-import_paths names path,
)

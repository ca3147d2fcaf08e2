-- ===== src/Proto/Convert/Fits/Pairs.antt =====
-- The loop over the entries of a map, which keeps their keys.
use trpc_proto.Base.{◌≡◌, refl, Bool, true, ◌&&◌, arith}
use trpc_proto.Base.Text.{Text, text_eq, text_eq_iff}
use trpc_proto.Proto.Values.{Value, object, Entries, no_entries, entry, set}
use trpc_proto.Proto.Convert.{Converted, ok, each_entry}
use trpc_proto.Proto.Convert.Objects.Rows.{append, append_assoc, append-no_entries}
use trpc_proto.Proto.Convert.Fits.{is_absent, are_distinct}

-- The entries of a map keep their keys.
pub data Pairs (R : Value → Value → Type 0) : Entries → Entries → Type 0 where
  no_pairs : Pairs R no_entries no_entries
  one_pair :
      {key : Text} {v w : Value} {es es' : Entries}
      → R v w
      → Pairs R es es'
      → Pairs R (entry key v es) (entry key w es')

-- No key of the one list is a key of the other.
abbrev pub are_absent : Entries → Entries → Bool
are_absent no_entries out = true
are_absent (entry n v es) out = is_absent n out && are_absent es out

pub are_absent-none : (es : Entries) → are_absent es no_entries ≡ true
are_absent-none no_entries = refl
are_absent-none (entry n v es) = are_absent-none es

pub set-absent :
    (key : Text) (w : Value) (out : Entries)
    → is_absent key out ≡ true
    → set key w out ≡ append out (entry key w no_entries)
set-absent key w no_entries h = refl
set-absent key w (entry n v out) h = ground (arith, set-absent key w out)

is_absent-append :
    (key : Text) (ds es : Entries)
    → is_absent key (append ds es) ≡ is_absent key ds && is_absent key es
is_absent-append key no_entries es = refl
is_absent-append key (entry n v ds) es = ground (arith, is_absent-append key ds es)

pub text_eq-sym : (s t : Text) → text_eq s t ≡ text_eq t s
text_eq-sym s t = ground (arith, text_eq_iff s t, text_eq_iff t s)

pub are_absent-append :
    (es ds : Entries) (key : Text) (w : Value)
    → is_absent key es ≡ true
    → are_absent es ds ≡ true
    → are_absent es (append ds (entry key w no_entries)) ≡ true
are_absent-append no_entries ds key w h i = refl
are_absent-append (entry n v es) ds key w h i = ground (
  arith,
  is_absent-append n ds (entry key w no_entries),
  text_eq-sym n key,
  are_absent-append es ds key w,
)

module _ (R : Value → Value → Type 0) (convert : Value → Converted)
    (converts : (v w : Value) → R v w → convert v ≡ ok w) where
  pub each_entry-Pairs :
      {es es' : Entries} (out : Entries)
      → are_distinct es ≡ true
      → are_absent es out ≡ true
      → Pairs R es es'
      → each_entry convert es out ≡ ok (object (append out es'))
  each_entry-Pairs out d a no_pairs = rw (append-no_entries out) refl
  each_entry-Pairs out d a (one_pair {key} {v} {w} {es} {es'} r ps) =
      rw (converts v w r, set-absent key w out (ground arith), append_assoc out key w es')
        (each_entry-Pairs (append out (entry key w no_entries)) (ground arith)
          (are_absent-append es out key w (ground arith) (ground arith)) ps)

module _ (R : Value → Value → Type 0) where
  Pairs-is_absent :
      {es es' : Entries} (key : Text) → Pairs R es es' → is_absent key es ≡ is_absent key es'
  Pairs-is_absent key no_pairs = refl
  Pairs-is_absent key (one_pair r ps) = ground (arith, Pairs-is_absent key ps)

  pub Pairs-are_distinct : {es es' : Entries} → Pairs R es es' → are_distinct es ≡ are_distinct es'
  Pairs-are_distinct no_pairs = refl
  Pairs-are_distinct (one_pair {key} r ps) =
      ground (arith, Pairs-is_absent key ps, Pairs-are_distinct ps)

  pub flip-Rows-Pairs : {es es' : Entries} → Pairs R es es' → Pairs (λ v w. R w v) es' es
  flip-Rows-Pairs no_pairs = no_pairs
  flip-Rows-Pairs (one_pair r ps) = one_pair r (flip-Rows-Pairs ps)

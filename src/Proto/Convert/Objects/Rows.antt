-- ===== src/Proto/Convert/Objects/Rows.antt =====
-- The loop over the fields of a message, on an object that lists the values of some of its fields in
-- their order: what it reads of the object, and what it makes of it.
use trpc_proto.Base.{
  ◌≡◌, refl, Bool, true, false, ◌&&◌, ◌||◌, not, List, [], ◌∷◌, arith, all, ap, Bool-cases, inl,
  inr,
}
use trpc_proto.Base.Text.{Text, text_eq, text_eq_self}
use trpc_proto.Utility.Case.{to_camel}
use trpc_proto.Schema.Types.{ProtoType, ProtoField}
use trpc_proto.Proto.Values.{
  Value, undefined, null, object, Entries, no_entries, entry, is_nullish, get, set, coalesce,
}
use trpc_proto.Proto.Convert.{
  Converted, ok, field_value, convert_raw_field, convert_raw_fields, is_undefined,
}

-- Neither the name of a field nor its camel case is that of another.
abbrev pub is_name_of : ProtoField → Text → Bool
is_name_of f key = text_eq key f.name || text_eq key (to_camel f.name)

abbrev pub is_apart : ProtoField → ProtoField → Bool
is_apart f g =
    not (is_name_of f g.name)
    && not (is_name_of f (to_camel g.name))
    && not (is_name_of g f.name)
    && not (is_name_of g (to_camel f.name))

abbrev pub are_apart : List ProtoField → Bool
are_apart [] = true
are_apart (f ∷ fs) = all (is_apart f) fs && are_apart fs

-- Under which name an object has a field.
pub data Naming : Type 0 where
  by_name by_camel : Naming

abbrev pub key_in : Naming → ProtoField → Text
key_in by_name f = f.name
key_in by_camel f = to_camel f.name

-- Two objects with the values of the same fields, each in their order.
pub data Rows (R : ProtoField → Value → Value → Type 0) (k l : Naming)
    : List ProtoField → Entries → Entries → Type 0 where
  done : Rows R k l [] no_entries no_entries
  skip :
      {f : ProtoField} {fs : List ProtoField} {es es' : Entries}
      → Rows R k l fs es es'
      → Rows R k l (f ∷ fs) es es'
  keep :
      {f : ProtoField} {fs : List ProtoField} {es es' : Entries} {v w : Value}
      → R f v w
      → Rows R k l fs es es'
      → Rows R k l (f ∷ fs) (entry (key_in k f) v es) (entry (key_in l f) w es')

abbrev pub append : Entries → Entries → Entries
append no_entries es = es
append (entry n v ds) es = entry n v (append ds es)

-- No entry has a name of the field.
abbrev pub is_free : ProtoField → Entries → Bool
is_free f no_entries = true
is_free f (entry n v es) = not (is_name_of f n) && is_free f es

free_value :
    (f : ProtoField) (es : Entries)
    → is_free f es ≡ true
    → (get f.name es ≡ undefined) × (get (to_camel f.name) es ≡ undefined)
free_value f no_entries h = (refl, refl)
free_value f (entry n v es) h = ground (arith, free_value f es)

apart-key :
    (f g : ProtoField) (k : Naming)
    → is_apart f g ≡ true
    → (is_name_of f (key_in k g) ≡ false) × (is_name_of g (key_in k f) ≡ false)
apart-key f g by_name h = ground arith
apart-key f g by_camel h = ground arith

key-is_name_of : (f : ProtoField) (k : Naming) → is_name_of f (key_in k f) ≡ true
key-is_name_of f by_name = rw (text_eq_self f.name) refl
key-is_name_of f by_camel = ground (arith, text_eq_self (to_camel f.name))

is_free-append :
    (f : ProtoField) (ds es : Entries) → is_free f (append ds es) ≡ is_free f ds && is_free f es
is_free-append f no_entries es = refl
is_free-append f (entry n v ds) es = ground (arith, is_free-append f ds es)

get-free :
    (f : ProtoField) (ds es : Entries)
    → is_free f ds ≡ true
    → (get f.name (append ds es) ≡ get f.name es)
      × (get (to_camel f.name) (append ds es) ≡ get (to_camel f.name) es)
get-free f no_entries es h = (refl, refl)
get-free f (entry n v ds) es h = ground (arith, get-free f ds es)

coalesce-kept : (v b : Value) → is_nullish v ≡ false → coalesce v b ≡ v
coalesce-kept undefined b h = cc
coalesce-kept null b h = cc
coalesce-kept _ b h = refl

pub append_assoc :
    (ds : Entries) (n : Text) (v : Value) (es : Entries)
    → append ds (entry n v es) ≡ append (append ds (entry n v no_entries)) es
append_assoc no_entries n v es = refl
append_assoc (entry m w ds) n v es = ap (entry m w) (append_assoc ds n v es)

pub append-no_entries : (ds : Entries) → append ds no_entries ≡ ds
append-no_entries no_entries = refl
append-no_entries (entry n v ds) = ap (entry n v) (append-no_entries ds)

pub field_value-free :
    (f : ProtoField) (es : Entries) → is_free f es ≡ true → field_value f (object es) ≡ undefined
field_value-free f es h = rw (free_value f es h).0 (free_value f es h).1

set-free :
    (f : ProtoField) (k : Naming) (w : Value) (out : Entries)
    → is_free f out ≡ true
    → set (key_in k f) w out ≡ append out (entry (key_in k f) w no_entries)
set-free f k w no_entries h = refl
set-free f by_name w (entry n v out) h = ground (arith, set-free f by_name w out)
set-free f by_camel w (entry n v out) h = ground (arith, set-free f by_camel w out)

pub field_value-first :
    (f : ProtoField) (k : Naming) (v : Value) (es : Entries)
    → is_nullish v ≡ false
    → is_free f es ≡ true
    → field_value f (object (entry (key_in k f) v es)) ≡ v
field_value-first f by_name v es u h = rw (text_eq_self f.name) (coalesce-kept v _ u)
field_value-first f by_camel v es u h = elim (Bool-cases (text_eq (to_camel f.name) f.name)) [
  | inl e ↦ rw e (coalesce-kept v _ u)
  | inr e ↦ rw (e, (free_value f es h).0, text_eq_self (to_camel f.name)) refl
]

field_value-kept :
    (f : ProtoField) (k : Naming) (v : Value) (ds es : Entries)
    → is_nullish v ≡ false
    → is_free f ds ≡ true
    → is_free f es ≡ true
    → field_value f (object (append ds (entry (key_in k f) v es))) ≡ v
field_value-kept f k v ds es u h i =
    let (e, e') = get-free f ds (entry (key_in k f) v es) h in
    rw (e, e') (field_value-first f k v es u i)

-- The rows of fields that are apart from one leave its names free.
module _ {R : ProtoField → Value → Value → Type 0} {k l : Naming} where
  Rows-is_free :
      {fs : List ProtoField} {es es' : Entries} (f : ProtoField)
      → all (is_apart f) fs ≡ true
      → Rows R k l fs es es'
      → (is_free f es ≡ true) × (is_free f es' ≡ true)
  Rows-is_free f h done = (refl, refl)
  Rows-is_free f h (skip rows) = Rows-is_free f (ground arith) rows
  Rows-is_free f h (keep {f = g} r rows) =
      let (a, b) = Rows-is_free f (ground arith) rows in
      (
        ground (arith, (apart-key f g k (ground arith)).0),
        ground (arith, (apart-key f g l (ground arith)).0),
      )

abbrev pub are_free : List ProtoField → Entries → Bool
are_free [] es = true
are_free (f ∷ fs) es = is_free f es && are_free fs es

are_free-append :
    (f : ProtoField) (k : Naming) (v : Value) (fs : List ProtoField) (ds : Entries)
    → all (is_apart f) fs ≡ true
    → are_free fs ds ≡ true
    → are_free fs (append ds (entry (key_in k f) v no_entries)) ≡ true
are_free-append f k v [] ds h i = refl
are_free-append f k v (g ∷ fs) ds h i = ground (
  arith,
  is_free-append g ds (entry (key_in k f) v no_entries),
  (apart-key f g k (ground arith)).1,
  are_free-append f k v fs ds,
)

are_free-none : (fs : List ProtoField) → are_free fs no_entries ≡ true
are_free-none [] = refl
are_free-none (f ∷ fs) = are_free-none fs

is_undefined-kept : (v : Value) → is_nullish v ≡ false → is_undefined v ≡ false
is_undefined-kept undefined h = cc
is_undefined-kept _ h = refl

pub flip-Rows :
    {R : ProtoField → Value → Value → Type 0} {k l : Naming} {fs : List ProtoField}
    {es es' : Entries}
    → Rows R k l fs es es'
    → Rows (λ f v w. R f w v) l k fs es' es
flip-Rows done = done
flip-Rows (skip rows) = skip (flip-Rows rows)
flip-Rows (keep r rows) = keep r (flip-Rows rows)

-- What a loop makes of one object of the rows is the other, if it makes the values of one those of
-- the other.
module _ {R : ProtoField → Value → Value → Type 0} {k l : Naming}
    (convert : ProtoType → Value → Converted)
    (converts : (f : ProtoField) (v w : Value)
      → R f v w
      → (is_nullish v ≡ false) × (convert_raw_field convert f v ≡ ok w)) where
  convert_raw_fields-Rows_between :
      {fs : List ProtoField} {es es' : Entries} (ds out : Entries)
      → are_apart fs ≡ true
      → are_free fs ds ≡ true
      → are_free fs out ≡ true
      → Rows R k l fs es es'
      → convert_raw_fields (key_in l) convert fs (object (append ds es)) out
        ≡ ok (object (append out es'))
  unfolding convert_raw_fields
  convert_raw_fields-Rows_between ds out a h i done = rw (append-no_entries out) refl
  convert_raw_fields-Rows_between ds out a h i (skip {f} {fs} {es} {es'} rows) =
      let free : is_free f (append ds es) ≡ true =
        ground (arith, is_free-append f ds es, (Rows-is_free f (ground arith) rows).0) in
      rw (field_value-free f (append ds es) free)
        (convert_raw_fields-Rows_between ds out (ground arith) (ground arith) (ground arith) rows)
  convert_raw_fields-Rows_between ds out a h i (keep {f} {fs} {es} {es'} {v} {w} r rows) =
      let (u, c) = converts f v w r in
      let others : all (is_apart f) fs ≡ true = ground arith in
      let free : is_free f ds ≡ true = ground arith in
      rw
        (
          field_value-kept f k v ds es u free (Rows-is_free f others rows).0,
          is_undefined-kept v u,
          c,
          set-free f l w out (ground arith),
          append_assoc ds (key_in k f) v es,
          append_assoc out (key_in l f) w es',
        )
        (convert_raw_fields-Rows_between _ _ (ground arith)
          (are_free-append f k v fs ds others (ground arith))
          (are_free-append f l w fs out others (ground arith)) rows)

  pub convert_raw_fields-Rows :
      {fs : List ProtoField} {es es' : Entries}
      → are_apart fs ≡ true
      → Rows R k l fs es es'
      → convert_raw_fields (key_in l) convert fs (object es) no_entries ≡ ok (object es')
  convert_raw_fields-Rows {fs} a rows =
      convert_raw_fields-Rows_between no_entries no_entries a (are_free-none fs) (are_free-none fs)
        rows

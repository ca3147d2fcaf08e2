-- ===== src/Proto/Convert/Fits/Fields.antt =====
-- The values of the types, and those of the fields of a message, come back.
use trpc_proto.Base.{◌≡◌, refl, true, false, List, Option, sym, ◌∙◌}
use trpc_proto.Base.Text.{Text, text_eq}
use trpc_proto.Schema.Types.{ProtoScalar, ProtoType, message, map_of, ProtoField, ProtoMessage}
use trpc_proto.Proto.Values.{
  Value, array, object, Items, no_items, item, Entries, no_entries, entry,
}
use trpc_proto.Proto.Convert.{
  Converted, ok, Conversion, timestamp_name, to_proto_value, from_proto_value, each_item,
  convert_raw_field,
}
use trpc_proto.Proto.Convert.Objects.Rows.{by_name, by_camel, Rows, done, skip, keep}
use trpc_proto.Proto.Convert.Fits.{
  are_distinct, FitsValue, a_long, a_scalar, an_enum, a_date, a_message, a_map, FitsEntries,
  no_more, one_more, FitsItems, none_left, one_left, FitsField, singular_field, repeated_field,
  FitsFields, no_fields, without, with_field,
}
use trpc_proto.Proto.Convert.Fits.Scalars.{
  Matches, ComesBack, TypeComesBack, long-ComesBack, scalar-ComesBack, date-ComesBack,
  enum-ComesBack,
}
use trpc_proto.Proto.Convert.Fits.Pairs.{
  Pairs, no_pairs, one_pair, each_entry-Pairs, Pairs-are_distinct, flip-Rows-Pairs, are_absent-none,
}

convert_raw_field-singular :
    (convert : ProtoType → Value → Converted) (f : ProtoField) (v : Value)
    → f.repeated ≡ false
    → convert_raw_field convert f v ≡ convert f.type v
convert_raw_field-singular convert f (array items) r = rw r refl
convert_raw_field-singular convert f _ r = refl

module _ (P : Text → Option ProtoMessage → Value → Type 0) (to from : Conversion)
    (scope : Option ProtoMessage)
    (message-ComesBack : (name : Text) (v : Value)
      → P name scope v
      → ComesBack (λ v. to name v scope) (λ w. from name w scope) v) where
  abbrev to_type : ProtoType → Value → Converted
  to_type type v = to_proto_value to type v scope

  abbrev from_type : ProtoType → Value → Converted
  from_type type w = from_proto_value from type w scope

  named-ComesBack :
      (name : Text) (v : Value)
      → text_eq name timestamp_name ≡ false
      → P name scope v
      → TypeComesBack to from scope (message name) v
  unfolding to_proto_value from_proto_value
  named-ComesBack name v t p =
      let (w, m) = message-ComesBack name v p in
      (
        w,
        record {
          given = m.given;
          made = m.made;
          there_is = rw (m.given, t) m.there_is;
          and_back = rw (m.made, t) m.and_back;
        },
      )

  map-ComesBack :
      (key : ProtoScalar) (type : ProtoType) (es es' : Entries)
      → are_distinct es ≡ true
      → Pairs (Matches (to_type type) (from_type type)) es es'
      → TypeComesBack to from scope (map_of key type) (object es)
  unfolding to_proto_value from_proto_value
  map-ComesBack key type es es' d ps = (
    object es',
    record {
      given = refl;
      made = refl;
      there_is =
          each_entry-Pairs _ (to_type type) (λ v w m. m.there_is) no_entries d (are_absent-none es)
            ps;
      and_back =
          each_entry-Pairs _ (from_type type) (λ w v m. m.and_back) no_entries
            (sym (Pairs-are_distinct _ ps) ∙ d) (are_absent-none es') (flip-Rows-Pairs _ ps);
    },
  )

  mutual
    value-ComesBack :
        {type : ProtoType} {v : Value}
        → FitsValue P scope type v
        → TypeComesBack to from scope type v
    value-ComesBack (a_long {kind} {z} h) = long-ComesBack to from kind z scope h
    value-ComesBack (a_scalar {kind} {v} h u) = scalar-ComesBack to from kind v scope h u
    value-ComesBack (an_enum {name} {v} u) = enum-ComesBack to from name v scope u
    value-ComesBack (a_date {ms} h r) = date-ComesBack to from ms scope h r
    value-ComesBack (a_message {name} {v} t p) = named-ComesBack name v t p
    value-ComesBack (a_map {key} {type} {es} d fs) =
        let (es', ps) = entries-Pairs fs in map-ComesBack key type es es' d ps

    entries-Pairs :
        {type : ProtoType} {es : Entries}
        → FitsEntries P scope type es
        → (es' : Entries) × Pairs (Matches (to_type type) (from_type type)) es es'
    entries-Pairs no_more = (no_entries, no_pairs)
    entries-Pairs (one_more {key} f fs) =
        let (w, m) = value-ComesBack f in
        let (es', ps) = entries-Pairs fs in (entry key w es', one_pair m ps)

  items-ComesBack :
      {type : ProtoType} {items : Items}
      → FitsItems P scope type items
      → (made : Items) × ((k : Items → Converted) → each_item (to_type type) items k ≡ k made)
        × ((k : Items → Converted) → each_item (from_type type) made k ≡ k items)
  items-ComesBack none_left = (no_items, λ k. refl, λ k. refl)
  items-ComesBack (one_left {v} f fs) =
      let (w, m) = value-ComesBack f in
      let (ws, there_is, and_back) = items-ComesBack fs in
      (
        item w ws,
        (λ k. rw (m.there_is) (there_is λ us. k (item w us))),
        λ k. rw (m.and_back) (and_back λ us. k (item v us)),
      )

  pub field-ComesBack :
      {f : ProtoField} {v : Value}
      → FitsField P scope f v
      → ComesBack (convert_raw_field to_type f) (convert_raw_field from_type f) v
  field-ComesBack {f} {v} (singular_field r h) =
      let (w, m) = value-ComesBack h in
      (
        w,
        record {
          given = m.given;
          made = m.made;
          there_is = convert_raw_field-singular to_type f v r ∙ m.there_is;
          and_back = convert_raw_field-singular from_type f w r ∙ m.and_back;
        },
      )
  field-ComesBack {f} (repeated_field {items} r h) =
      let (made, there_is, and_back) = items-ComesBack h in
      (
        array made,
        record {
          given = refl;
          made = refl;
          there_is = rw r (there_is λ ws. ok (array ws));
          and_back = rw r (and_back λ ws. ok (array ws));
        },
      )

  abbrev pub FieldMatches : ProtoField → Value → Value → Type 0
  FieldMatches f = Matches (convert_raw_field to_type f) (convert_raw_field from_type f)

  pub fields-Rows :
      {fs : List ProtoField} {es : Entries}
      → FitsFields P scope fs es
      → (es' : Entries) × Rows FieldMatches by_camel by_name fs es es'
  fields-Rows no_fields = (no_entries, done)
  fields-Rows (without fs) = let (es', rows) = fields-Rows fs in (es', skip rows)
  fields-Rows (with_field {f} h fs) =
      let (w, m) = field-ComesBack h in
      let (es', rows) = fields-Rows fs in (entry f.name w es', keep m rows)

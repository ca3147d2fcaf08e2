-- ===== src/Schema/Text/Oneofs.antt =====
-- The fields of a printed message: each stands once, and those of a oneof together.
use mathlib.Core.List.{Perm, perm_middle}
use mathlib.Core.List.Perm
use trpc_proto.Base.{
  Bool, ◌≡◌, refl, sym, ap, ◌∙◌, true, false, List, [], ◌∷◌, ◌++◌, Option, none, some, arith, All,
  All-append, append_assoc, append-nil, Bool-cases, inl, inr,
}
use trpc_proto.Base.Text.{Text, text_eq, text_eq_iff, lookup, insert, lookup-insert}
use trpc_proto.Schema.Types.{ProtoField}
use trpc_proto.Schema.Text.{Groups, group_of, place_field, group_fields}

-- The fields of all groups.
abbrev pub grouped_fields : Groups → List ProtoField
grouped_fields [] = []
grouped_fields ((name, fields) ∷ groups) = fields ++ grouped_fields groups

abbrev pub all_fields : Groups × List ProtoField → List ProtoField
all_fields (grouped, rest) = grouped_fields grouped ++ rest

insert_group_same :
    (name n : Text) (field : ProtoField) (fields : List ProtoField) (groups : Groups)
    → text_eq n name ≡ true
    → insert name (group_of name ((n, fields) ∷ groups) ++ (field ∷ [])) ((n, fields) ∷ groups)
      ≡ (n, fields ++ (field ∷ [])) ∷ groups
insert_group_same name n field fields groups same = ground arith

insert_group_other :
    (name n : Text) (field : ProtoField) (fields : List ProtoField) (groups : Groups)
    → text_eq n name ≡ false
    → insert name (group_of name ((n, fields) ∷ groups) ++ (field ∷ [])) ((n, fields) ∷ groups)
      ≡ (n, fields) ∷ insert name (group_of name groups ++ (field ∷ [])) groups
insert_group_other name n field fields groups other = ground arith

insert_group :
    (name : Text) (field : ProtoField) (groups : Groups)
    → Perm
        (grouped_fields (insert name (group_of name groups ++ (field ∷ [])) groups))
        (field ∷ grouped_fields groups)
insert_group name field [] = Perm.refl _
insert_group name field ((n, fields) ∷ groups) = elim (Bool-cases (text_eq n name)) [
  | inl same ↦
      rw
        (
          insert_group_same name n field fields groups same,
          append_assoc fields (field ∷ []) (grouped_fields groups),
        )
        (perm_middle fields (grouped_fields groups))
  | inr other ↦ rw (insert_group_other name n field fields groups other) (
      Perm.trans (Perm.append_left fields (insert_group name field groups))
        (perm_middle fields (grouped_fields groups)))
]

snoc_rest :
    (field : ProtoField) (groups rest : List ProtoField)
    → Perm (groups ++ (rest ++ (field ∷ []))) (field ∷ groups ++ rest)
snoc_rest field groups rest =
    rw (← append_assoc groups rest (field ∷ [])) (
      Perm.trans (perm_middle (groups ++ rest) []) (rw (append-nil (groups ++ rest)) (Perm.refl _)))

place_field-perm :
    (field : ProtoField) (oneof : Option Text) (placed : Groups × List ProtoField)
    → Perm (all_fields (place_field field oneof placed)) (field ∷ all_fields placed)
place_field-perm field none (grouped, rest) = snoc_rest field (grouped_fields grouped) rest
place_field-perm field (some []) (grouped, rest) = snoc_rest field (grouped_fields grouped) rest
place_field-perm field (some (c ∷ name)) (grouped, rest) =
    Perm.append_right rest (insert_group (c ∷ name) field grouped)

group_fields-perm_from :
    (fields : List ProtoField) (placed : Groups × List ProtoField)
    → Perm (all_fields (group_fields fields placed)) (fields ++ all_fields placed)
unfolding group_fields
group_fields-perm_from [] placed = Perm.refl _
group_fields-perm_from (field ∷ fields) placed =
    Perm.trans (group_fields-perm_from fields (place_field field field.oneof placed)) (
      Perm.trans (Perm.append_left fields (place_field-perm field field.oneof placed))
        (perm_middle fields (all_fields placed)))

-- No name stands twice among the groups.
abbrev pub HasUniqueGroups : Groups → Type 0
HasUniqueGroups [] = Unit
HasUniqueGroups ((name, fields) ∷ groups) = (lookup name groups ≡ none) × HasUniqueGroups groups

insert-HasUniqueGroups :
    (name : Text) (fields : List ProtoField) (groups : Groups)
    → HasUniqueGroups groups
    → HasUniqueGroups (insert name fields groups)
insert-HasUniqueGroups name fields [] h = (refl, tt)
insert-HasUniqueGroups name fields ((n, fs) ∷ groups) h = ground (
  arith,
  text_eq_iff n name,
  text_eq_iff name n,
  lookup-insert name n fields groups,
  insert-HasUniqueGroups name fields groups h.1,
)

place_field-HasUniqueGroups :
    (field : ProtoField) (oneof : Option Text) (placed : Groups × List ProtoField)
    → HasUniqueGroups placed.0
    → HasUniqueGroups (place_field field oneof placed).0
place_field-HasUniqueGroups field none placed h = h
place_field-HasUniqueGroups field (some []) placed h = h
place_field-HasUniqueGroups field (some (c ∷ name)) (grouped, rest) h =
    insert-HasUniqueGroups (c ∷ name) (group_of (c ∷ name) grouped ++ (field ∷ [])) grouped h

group_fields-HasUniqueGroups :
    (fields : List ProtoField) (placed : Groups × List ProtoField)
    → HasUniqueGroups placed.0
    → HasUniqueGroups (group_fields fields placed).0
unfolding group_fields
group_fields-HasUniqueGroups [] placed h = h
group_fields-HasUniqueGroups (field ∷ fields) placed h =
    group_fields-HasUniqueGroups fields (place_field field field.oneof placed)
      (place_field-HasUniqueGroups field field.oneof placed h)

-- Each group holds fields of its own oneof.
abbrev pub IsOf : Text × List ProtoField → Type 0
IsOf (name, fields) = All (λ (f : ProtoField). f.oneof ≡ some name) fields

insert_group-IsOf :
    (name : Text) (field : ProtoField) (groups : Groups)
    → field.oneof ≡ some name
    → All IsOf groups
    → All IsOf (insert name (group_of name groups ++ (field ∷ [])) groups)
insert_group-IsOf name field [] e h = ((e, tt), tt)
insert_group-IsOf name field ((n, fields) ∷ groups) e (first, h) =
    elim (Bool-cases (text_eq n name)) [
      | inl same ↦
          let one : name ≡ n = sym ((text_eq_iff n name).0 same) in
          rw (insert_group_same name n field fields groups same) (
            All-append (λ (f : ProtoField). f.oneof ≡ some n) fields (field ∷ []) first
                (e ∙ ap some one, tt),
            h,
          )
      | inr other ↦
          rw (insert_group_other name n field fields groups other)
            (first, insert_group-IsOf name field groups e h)
    ]

place_field-IsOf :
    (field : ProtoField) (oneof : Option Text) (placed : Groups × List ProtoField)
    → field.oneof ≡ oneof
    → All IsOf placed.0
    → All IsOf (place_field field oneof placed).0
place_field-IsOf field none placed e h = h
place_field-IsOf field (some []) placed e h = h
place_field-IsOf field (some (c ∷ name)) (grouped, rest) e h =
    insert_group-IsOf (c ∷ name) field grouped e h

group_fields-IsOf :
    (fields : List ProtoField) (placed : Groups × List ProtoField)
    → All IsOf placed.0
    → All IsOf (group_fields fields placed).0
unfolding group_fields
group_fields-IsOf [] placed h = h
group_fields-IsOf (field ∷ fields) placed h =
    group_fields-IsOf fields (place_field field field.oneof placed)
      (place_field-IsOf field field.oneof placed refl h)

-- A field in no oneof, whose name is missing or empty.
abbrev pub in_no_oneof : Option Text → Bool
in_no_oneof none = true
in_no_oneof (some []) = true
in_no_oneof (some (c ∷ name)) = false

abbrev pub AreAlone : List ProtoField → Type 0
AreAlone rest = All (λ (f : ProtoField). in_no_oneof f.oneof ≡ true) rest

snoc-AreAlone :
    (field : ProtoField) (rest : List ProtoField)
    → in_no_oneof field.oneof ≡ true
    → AreAlone rest
    → AreAlone (rest ++ (field ∷ []))
snoc-AreAlone field rest e h =
    All-append (λ (f : ProtoField). in_no_oneof f.oneof ≡ true) rest (field ∷ []) h (e, tt)

place_field-AreAlone :
    (field : ProtoField) (oneof : Option Text) (placed : Groups × List ProtoField)
    → field.oneof ≡ oneof
    → AreAlone placed.1
    → AreAlone (place_field field oneof placed).1
place_field-AreAlone field none (grouped, rest) e h = snoc-AreAlone field rest (ap in_no_oneof e) h
place_field-AreAlone field (some []) (grouped, rest) e h =
    snoc-AreAlone field rest (ap in_no_oneof e) h
place_field-AreAlone field (some (c ∷ name)) (grouped, rest) e h = h

group_fields-AreAlone :
    (fields : List ProtoField) (placed : Groups × List ProtoField)
    → AreAlone placed.1
    → AreAlone (group_fields fields placed).1
unfolding group_fields
group_fields-AreAlone [] placed h = h
group_fields-AreAlone (field ∷ fields) placed h =
    group_fields-AreAlone fields (place_field field field.oneof placed)
      (place_field-AreAlone field field.oneof placed refl h)

-- Among the fields beside the groups and those of the groups, every field of a message stands exactly
-- as often as in the message. Beside the groups stand fields in no oneof only, a group holds fields
-- of its own oneof only, and no oneof has two groups.
pub group_fields-perm :
    (fields : List ProtoField)
    → Perm (all_fields (group_fields fields ([], []))) fields
      × AreAlone (group_fields fields ([], [])).1
      × All IsOf (group_fields fields ([], [])).0
      × HasUniqueGroups (group_fields fields ([], [])).0
group_fields-perm fields = (
  Perm.trans (group_fields-perm_from fields ([], [])) (rw (append-nil fields) (Perm.refl _)),
  group_fields-AreAlone fields ([], []) tt,
  group_fields-IsOf fields ([], []) tt,
  group_fields-HasUniqueGroups fields ([], []) tt,
)

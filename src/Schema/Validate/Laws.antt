-- ===== src/Schema/Validate/Laws.antt =====
-- Which routers pass the validation.
use trpc_proto.Base.{
  ◌≡◌, ◌≢◌, ◌⊎◌, ◌↔◌, ◌∙◌, ap, refl, ◌++◌, some, all, true, false, List, [], ◌∷◌, Option, none, any,
  All, arith, Bool-cases, Option-cases, inl, inr,
}
use trpc_proto.Base.Text.{Text, codes, text_eq, text_eq→eq, text_eq_self}
use trpc_proto.Schema.Validate.{
  ProtoIssue, ProtoFileHeader, ProtoProcedureCheck, ProtoPrevalidateInput, Stringify, lacks_package,
  other_syntax, overrides, procedure_issues, package_issues, syntax_issues, all_procedure_issues,
  prevalidate, is_error, assert_prevalidate,
}

module _ (stringify : Stringify) where
  -- Two headers that print as the same JSON.
  abbrev pub IsSameProto : ProtoFileHeader → Option ProtoFileHeader → Type 0
  IsSameProto proto default =
      (header : ProtoFileHeader) × (default ≡ some header)
      × (stringify.header proto ≡ stringify.header header)

  -- A procedure has an output, and no metadata but that of the router.
  abbrev pub Passes : Option ProtoFileHeader → ProtoProcedureCheck → Type 0
  Passes default procedure =
      (procedure.has_output ≡ true)
      × ((proto : ProtoFileHeader) → procedure.proto ≡ some proto → IsSameProto proto default)

  -- A router with a package, whose name is not empty, with no syntax but proto3, and with procedures
  -- that pass.
  pub record IsValid (input : ProtoPrevalidateInput) : Type 0 where
    pub header : ProtoFileHeader
    pub there : input.default_proto ≡ some header
    pub package_name : Text
    pub has_package : header.package_name ≡ some package_name
    pub not_empty : package_name ≢ []
    pub syntax : (header.syntax ≡ none) ⊎ (header.syntax ≡ some (codes "proto3"))
    pub procedures : All (Passes input.default_proto) input.procedures

  -- The same, in terms of the source's tests.
  abbrev HasPackage : Option ProtoFileHeader → Type 0
  HasPackage default =
      (header : ProtoFileHeader) × (default ≡ some header)
      × (name : Text) × (header.package_name ≡ some name)
      × (name ≢ [])

  lacks_package-HasPackage :
      (default : Option ProtoFileHeader) → lacks_package default ≡ false → HasPackage default
  unfolding lacks_package
  lacks_package-HasPackage none h = absurd (cc)
  lacks_package-HasPackage (some header) h = elim (Option-cases header.package_name) [
    | inl missing ↦ absurd (ground (arith, missing))
    | inr ([], found) ↦ absurd (ground (arith, found))
    | inr (c ∷ name, found) ↦ (header, refl, c ∷ name, found, λ e. cc (e))
  ]

  HasPackage-lacks_package :
      (header : ProtoFileHeader) (name : Text)
      → header.package_name ≡ some name
      → name ≢ []
      → lacks_package (some header) ≡ false
  unfolding lacks_package
  HasPackage-lacks_package header [] found h = absurd (h refl)
  HasPackage-lacks_package header (c ∷ name) found h = rw (found, lacks_package) refl

  other_syntax-none :
      (header : ProtoFileHeader)
      → other_syntax (some header) ≡ none
      → (header.syntax ≡ none) ⊎ (header.syntax ≡ some (codes "proto3"))
  unfolding other_syntax
  other_syntax-none header h = elim (Option-cases header.syntax) [
    | inl missing ↦ inl missing
    | inr (syntax, found) ↦ elim (Bool-cases (text_eq syntax (codes "proto3"))) [
      | inl same ↦ inr (found ∙ ap some (text_eq→eq syntax (codes "proto3") same))
      | inr other ↦ absurd (ground (arith, found, other))
    ]
  ]

  none-other_syntax :
      (header : ProtoFileHeader)
      → (header.syntax ≡ none) ⊎ (header.syntax ≡ some (codes "proto3"))
      → other_syntax (some header) ≡ none
  unfolding other_syntax
  none-other_syntax header (inl missing) = rw (missing, other_syntax) refl
  none-other_syntax header (inr found) = rw (found, other_syntax) refl

  overrides-IsSameProto :
      (procedure : ProtoProcedureCheck) (default : Option ProtoFileHeader)
      → overrides stringify procedure default ≡ false
      → (proto : ProtoFileHeader) → procedure.proto ≡ some proto
      → IsSameProto proto default
  unfolding overrides
  overrides-IsSameProto procedure none h proto found = absurd (ground (arith, found))
  overrides-IsSameProto procedure (some header) h proto found =
      (header, refl, text_eq→eq _ _ (ground (arith, found)))

  IsSameProto-overrides :
      (procedure : ProtoProcedureCheck) (default : Option ProtoFileHeader)
      → ((proto : ProtoFileHeader) → procedure.proto ≡ some proto → IsSameProto proto default)
      → overrides stringify procedure default ≡ false
  unfolding overrides
  IsSameProto-overrides procedure default h = elim (Option-cases procedure.proto) [
    | inl missing ↦ rw (missing, overrides) refl
    | inr (proto, found) ↦
        let (header, there, same) = h proto found in
        rw (found, overrides) (rw (there, same, text_eq_self (stringify.header header)) refl)
  ]

  -- A procedure with an output that overrides nothing.
  abbrev Clean : Option ProtoFileHeader → ProtoProcedureCheck → Type 0
  Clean default procedure =
      (procedure.has_output ≡ true) × (overrides stringify procedure default ≡ false)

  procedures-Passes :
      (default : Option ProtoFileHeader) (procedures : List ProtoProcedureCheck)
      → All (Clean default) procedures
      → All (Passes default) procedures
  procedures-Passes default [] h = tt
  procedures-Passes default (procedure ∷ procedures) ((has, same), h) =
      ((has, overrides-IsSameProto procedure default same), procedures-Passes default procedures h)

  procedures-Clean :
      (default : Option ProtoFileHeader) (procedures : List ProtoProcedureCheck)
      → All (Passes default) procedures
      → All (Clean default) procedures
  procedures-Clean default [] h = tt
  procedures-Clean default (procedure ∷ procedures) ((has, same), h) =
      ((has, IsSameProto-overrides procedure default same), procedures-Clean default procedures h)

  no_issues-Clean :
      (header : Option ProtoFileHeader) (procedures : List ProtoProcedureCheck)
      → any is_error (all_procedure_issues stringify procedures header) ≡ false
      → All (Clean header) procedures
  no_issues-Clean header [] h = tt
  no_issues-Clean header (procedure ∷ procedures) h = elim (Bool-cases procedure.has_output) [
    | inr missing ↦ absurd (ground (arith, missing))
    | inl has ↦ elim (Bool-cases (overrides stringify procedure header)) [
      | inl other ↦ absurd (ground (arith, has, other))
      | inr same ↦ ((has, same), no_issues-Clean header procedures (ground (arith, has, same)))
    ]
  ]

  no_issues :
      (header : Option ProtoFileHeader) (procedures : List ProtoProcedureCheck)
      → All (Clean header) procedures
      → all_procedure_issues stringify procedures header ≡ []
  no_issues header [] h = refl
  no_issues header (procedure ∷ procedures) ((has, same), h) =
      simp (has, same, no_issues header procedures h)

  IsValid-prevalidate :
      (input : ProtoPrevalidateInput) → IsValid input → prevalidate stringify input ≡ []
  unfolding prevalidate
  IsValid-prevalidate input h =
      let named : lacks_package input.default_proto ≡ false =
        rw (h.there) (HasPackage-lacks_package h.header h.package_name h.has_package h.not_empty) in
      let syntax : other_syntax input.default_proto ≡ none =
        rw (h.there) (none-other_syntax h.header h.syntax) in
      ground (
        arith,
        named,
        syntax,
        no_issues input.default_proto input.procedures
            (procedures-Clean input.default_proto input.procedures h.procedures),
      )

  no_error :
      (issues : List ProtoIssue) (file : Option Text)
      → assert_prevalidate issues file ≡ none
      → any is_error issues ≡ false
  unfolding assert_prevalidate
  no_error issues file h = ground arith

  prevalidate-IsValid :
      (input : ProtoPrevalidateInput)
      → any is_error (prevalidate stringify input) ≡ false
      → IsValid input
  unfolding prevalidate
  prevalidate-IsValid input h = elim (Bool-cases (lacks_package input.default_proto)) [
    | inl lacks ↦ absurd (ground (arith, lacks))
    | inr has ↦ elim (Option-cases (other_syntax input.default_proto)) [
      | inr (syntax, other) ↦ absurd (ground (arith, has, other))
      | inl proto3 ↦
          let (header, there, name, found, filled) =
            lacks_package-HasPackage input.default_proto has in
          record {
            header = header;
            there = there;
            package_name = name;
            has_package = found;
            not_empty = filled;
            syntax = other_syntax-none header (rw there at proto3);
            procedures = procedures-Passes input.default_proto input.procedures (
                no_issues-Clean input.default_proto input.procedures (ground (arith, has, proto3)));
          }
    ]
  ]

  all-append :
      (xs ys : List ProtoIssue)
      → all is_error xs ≡ true
      → all is_error ys ≡ true
      → all is_error (xs ++ ys) ≡ true
  all-append [] ys h k = k
  all-append (x ∷ xs) ys h k = ground (arith, all-append xs ys)

  procedures-all :
      (default : Option ProtoFileHeader) (procedures : List ProtoProcedureCheck)
      → all is_error (all_procedure_issues stringify procedures default) ≡ true
  procedures-all default [] = refl
  procedures-all default (procedure ∷ procedures) =
      all-append (procedure_issues stringify procedure default) _ (ground arith)
        (procedures-all default procedures)

  prevalidate-all :
      (input : ProtoPrevalidateInput) → all is_error (prevalidate stringify input) ≡ true
  unfolding prevalidate
  prevalidate-all input =
      all-append (package_issues stringify input.default_proto) _ (ground arith) (
        all-append (syntax_issues stringify input.default_proto) _ (ground arith)
          (procedures-all input.default_proto input.procedures))

  -- Validation lets a router pass, and finds no issue, exactly if its metadata names a package, not by
  -- an empty text, and no syntax but proto3, and each of its procedures has an output and no metadata
  -- that differ from those of the router, as their JSON texts show. Every issue is an error.
  pub assert_prevalidate_iff :
      (input : ProtoPrevalidateInput) (file : Option Text)
      → ((assert_prevalidate (prevalidate stringify input) file ≡ none) ↔ IsValid input)
        × ((prevalidate stringify input ≡ []) ↔ IsValid input)
        × (all is_error (prevalidate stringify input) ≡ true)
  assert_prevalidate_iff input file = (
    (
      λ passes. prevalidate-IsValid input (no_error (prevalidate stringify input) file passes),
      λ valid. rw (IsValid-prevalidate input valid) (unfold assert_prevalidate in refl),
    ),
    (λ nothing. prevalidate-IsValid input (rw nothing refl), IsValid-prevalidate input),
    prevalidate-all input,
  )

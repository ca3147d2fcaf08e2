-- ===== src/Schema/Translate/Post.antt =====
-- Postconditions of the translator's methods, with a rule for `>>=`.
use trpc_proto.Base.{◌≡◌, refl}
use trpc_proto.Schema.Zod.Errors.{TranslateError, Translated, ok, err}
use trpc_proto.Schema.Translate.{Translator, Translation, continue_with}

-- `Q` holds of the value and the state, `E` of the error.
pub data Ends {ℓ} {A : Type ℓ} (Q : A → Translator → Type 0) (E : TranslateError → Type 0)
    : Translated (A × Translator) → Type ℓ where
  returns : {a : A} {s : Translator} → Q a s → Ends Q E (ok (a, s))
  throws : {e : TranslateError} → E e → Ends Q E (err e)

module _ {A B : Type 0} {P : A → Translator → Type 0} {E : TranslateError → Type 0} where
  infixl 1 ◌⟫◌
  pub ◌⟫◌ :
      {Q : B → Translator → Type 0} {r : Translated (A × Translator)} {f : A → Translation B}
      → Ends P E r
      → ((a : A) (s : Translator) → P a s → Ends Q E (f a s))
      → Ends Q E (continue_with r f)
  unfolding continue_with
  returns h ⟫ next = next _ _ h
  throws h ⟫ next = throws h

module _ {A : Type 0} {P : A → Translator → Type 0} {E : TranslateError → Type 0} where
  pub of_ok : {a : A} {s : Translator} → Ends P E (ok (a, s)) → P a s
  of_ok (returns h) = h

  pub of_err : {e : TranslateError} → Ends P E (err e) → E e
  of_err (throws h) = h

  pub weaken :
      {Q : A → Translator → Type 0} {r : Translated (A × Translator)}
      → ((a : A) (s : Translator) → P a s → Q a s)
      → Ends P E r
      → Ends Q E r
  weaken g (returns h) = returns (g _ _ h)
  weaken g (throws h) = throws h

-- Nothing is said of the error.
abbrev pub Any : TranslateError → Type 0
Any e = Unit

pub by_result {ℓ} :
    {A : Type ℓ} {Q : A → Translator → Type 0} (r : Translated (A × Translator))
    → ((a : A) (s : Translator) → r ≡ ok (a, s) → Q a s)
    → Ends Q Any r
by_result (ok (a, s)) h = returns (h a s refl)
by_result (err e) h = throws tt

-- ===== src/Schema/Zod/Errors.antt =====
-- What packages/schema_ir/src/translate/trpc_schema.ts throws, without the wording of the messages.
use trpc_proto.Base.Text.{Text}
use trpc_proto.Schema.Allocator.{AllocatorError}

-- A name that is not in Pascal case comes with the one that was expected; most others with the
-- message and field, or the discriminator and message, that they are about. `too_deep` is the
-- engine's `RangeError` when calls nest too deeply, and `no_number` the number of an allocator that
-- has ended.
pub data TranslateError : Type 0 where
  message_name_case enum_name_case : Text → Text → TranslateError
  oneof_repeated unsupported_type : Text → Text → TranslateError
  arm_not_object arm_without_tag duplicate_arm : Text → Text → TranslateError
  not_well_known : Text → TranslateError
  empty_oneof mixed_literal_types mixed_literal_numbers map_key_not_scalar : TranslateError
  allocator_error : AllocatorError → TranslateError
  chained_inputs not_zod : Text → TranslateError
  no_number too_deep : TranslateError

pub data Translated {ℓ} (A : Type ℓ) : Type ℓ where
  ok : A → Translated A
  err : TranslateError → Translated A

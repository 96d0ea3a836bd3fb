-- ===== src/Intent/Span.antt =====
-- Source provenance of an intent: `source_span` of pinelib/strategy/intent_validation.py.
use pinelib.Prelude.{
  Bool, Option, Result, String, false, int_eq, nat_eq, none, not, ok, option_eq, pair_eq, raise_if,
  some, string_eq, value_error, ◌==◌, ◌>>◌,
}
use pinelib.Intent.Contracts.{Span, Contracts, SpanInput, known, legacy, unknown}

-- A source hash that is not the expected one, where one is expected.
abbrev mismatch : Option String → String → Bool
mismatch none hash = false
mismatch (some wanted) hash = not (hash == wanted)

module _ {N : Type 0} (ct : Contracts N) where
  -- `source_span(value, strict_production=strict, expected_source_hash=expected)`
  unfoldable pub source_span : Bool → Option String → Option SpanInput → Result Span
  source_span strict expected none = do raise_if strict value_error; ok unknown
  source_span strict expected (some unknown) = ok unknown
  source_span strict expected (some legacy) = do raise_if strict value_error; ok unknown
  source_span strict expected (some (known hash offsets)) = do
    raise_if (not (ct.is_content_hash hash)) value_error
    raise_if (mismatch expected hash) value_error
    ok (known hash offsets)

-- ===== src/Samples.antt =====
-- Concrete values for the tests: floats that hold whole numbers, an engine for literal patterns,
-- and the contract of the repository's README.
use congine.Json.{
  pos, int, float, str, num, list, dict, Items, nil, cons, Fields, end, field, Floats, Re2,
}
use congine.Json.Builtins.{lt_ℤ, eq_ℤ}
use congine.Prelude.{true, ℕ, not, ◌==◌, string_eq, ltb, nat_beq}

abbrev pub whole_floats : Floats ℕ
whole_floats = record {
  lt_float = ltb;
  lt_int_float = λ a y. lt_ℤ a (pos y);
  lt_float_int = λ x b. lt_ℤ (pos x) b;
  eq_float = nat_beq;
  eq_int_float = λ a y. eq_ℤ a (pos y);
  is_zero = λ x. nat_beq x 0;
  str_of = λ _. "...";
}

abbrev pub literal_re : Re2
literal_re = record {
  encodes = λ s. true;
  compiles = λ p. not (p == "(");
  fullmatch = λ p s. p == s;
}

abbrev pub intent_spec : Fields ℕ
intent_spec = field "type" (str "string") (
    field "enum" (list (cons (str "refund") (cons (str "escalate") (cons (str "answer") nil)))) end)

abbrev pub confidence_spec : Fields ℕ
confidence_spec =
    field "type" (str "number")
      (field "minimum" (num (int (pos 0))) (field "maximum" (num (int (pos 1))) end))

abbrev pub reply_properties : Fields ℕ
reply_properties = field "intent" (dict intent_spec) (field "confidence" (dict confidence_spec) end)

abbrev pub reply_required : Items ℕ
reply_required = cons (str "intent") (cons (str "confidence") nil)

abbrev pub reply_schema : Fields ℕ
reply_schema =
    field "type" (str "object")
      (field "required" (list reply_required) (field "properties" (dict reply_properties) end))

abbrev pub good_reply : Fields ℕ
good_reply = field "intent" (str "refund") (field "confidence" (num (float 1)) end)

abbrev pub bad_reply : Fields ℕ
bad_reply = field "intent" (str "refund") (field "confidence" (num (float 9)) end)

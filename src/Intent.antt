-- ===== src/Intent.antt =====
-- src/intent.rs: `Intent`, an action with named parameters, and its hash.
pub mod Limits
use dyolo_kya.Prelude.{
  ℕ, Bool, ltb, leb, if◌then◌else◌, is_empty, length, List, [], ◌∷◌, ◌++◌, Result, ok, err, ◌>>=◌,
  ◌>>◌, fail_if,
}
use dyolo_kya.Prelude.Bytes.{Bytes, text, decimal, u64_le}
use dyolo_kya.Prelude.BTreeMap
use dyolo_kya.Prelude.BTreeMap.{BTreeMap}
use dyolo_kya.Error.{A1Error}
use dyolo_kya.Crypto.{Crypto, derive_key, domain_intent_leaf, cert_version}

abbrev pub max_action_len : ℕ
max_action_len = 256

abbrev pub max_param_key_len : ℕ
max_param_key_len = 128

abbrev pub max_param_value_len : ℕ
max_param_value_len = 4096

abbrev pub max_intent_params : ℕ
max_intent_params = 64

pub record Intent : Type 0 where
  pub action : Bytes
  pub params : BTreeMap Bytes

unfoldable pub new : Bytes → Result A1Error Intent
new action = do
  fail_if (is_empty action) (A1Error.wire_format_error (text "Intent action cannot be empty"))
  fail_if (ltb max_action_len (length action)) (
      A1Error.wire_format_error
        (text "Intent action exceeds maximum length of " ++ decimal max_action_len))
  ok (record { action = action; params = [] })

-- `normalize` stands for `trim().to_lowercase()` on Unicode strings.
unfoldable pub try_param : (Bytes → Bytes) → Intent → Bytes → Bytes → Result A1Error Intent
try_param normalize it key value = do
  fail_if (leb max_intent_params (length it.params)) (
      A1Error.wire_format_error
        (text "Intent exceeds maximum parameter count of " ++ decimal max_intent_params))
  fail_if (ltb max_param_key_len (length (normalize key))) (
      A1Error.wire_format_error
        (text "Intent parameter key exceeds maximum length of " ++ decimal max_param_key_len))
  fail_if (ltb max_param_value_len (length (normalize value))) (
      A1Error.wire_format_error
        (text "Intent parameter value exceeds maximum length of " ++ decimal max_param_value_len))
  ok (record it { params = BTreeMap.insert (normalize key) (normalize value) it.params })

encode_params : BTreeMap Bytes → Bytes
encode_params [] = []
encode_params ((k, v) ∷ m) =
    u64_le (length k) ++ (k ++ (u64_le (length v) ++ (v ++ encode_params m)))

unfoldable pub hash : Crypto → Intent → Bytes
unfolding encode_params
hash c it = derive_key c domain_intent_leaf cert_version (
    text "a1::dyolo::intent::v2.8.0"
    ++ (u64_le (length it.action)
        ++ (it.action ++ (u64_le (length it.params) ++ encode_params it.params))))

-- ===== src/Extensions.antt =====
-- src/cert_extensions.rs: the extension map of a certificate and its commitment.
pub mod Bounds
use dyolo_kya.Prelude.{
  ℕ, ◌+◌, ltb, if◌then◌else◌, is_empty, length, List, [], ◌∷◌, ◌++◌, Option, some, none, Result, ok,
  err,
}
use dyolo_kya.Prelude.Bytes.{Bytes, text, u64_le}
use dyolo_kya.Prelude.BTreeMap
use dyolo_kya.Prelude.BTreeMap.{BTreeMap}
use dyolo_kya.Error.{A1Error}
use dyolo_kya.Crypto.{Crypto, derive_key, domain_cert_ext, cert_version}

abbrev pub max_extension_bytes : ℕ
max_extension_bytes = 16384

pub data ExtValue : Type 0 where
  str : Bytes → ExtValue
  u64 : ℕ → ExtValue
  strings : List Bytes → ExtValue

pub record CertExtensions : Type 0 where
  pub fields : BTreeMap ExtValue
  pub byte_count : ℕ

unfoldable pub new : CertExtensions
new = record { fields = []; byte_count = 0 }

-- A map read back from its serialized form: serde skips `byte_count`, which is then 0.
unfoldable pub restored : BTreeMap ExtValue → CertExtensions
restored fields = record { fields = fields; byte_count = 0 }

total_length : List Bytes → ℕ
total_length [] = 0
total_length (s ∷ ss) = length s + total_length ss

unfoldable pub value_bytes : ExtValue → ℕ
unfolding total_length
value_bytes (ExtValue.str s) = length s
value_bytes (ExtValue.u64 n) = 8
value_bytes (ExtValue.strings v) = total_length v

unfoldable pub set_checked : CertExtensions → Bytes → ExtValue → Result A1Error CertExtensions
unfolding value_bytes
set_checked e key value =
    let add_bytes = length key + value_bytes value in
    if is_empty key
    then err (A1Error.wire_format_error (text "extension key must not be empty"))
    else if ltb max_extension_bytes (e.byte_count + add_bytes)
    then err (A1Error.wire_format_error (text "maximum extension byte limit exceeded"))
    else ok (record {
      fields = BTreeMap.insert key value e.fields;
      byte_count = e.byte_count + add_bytes;
    })

-- A panic, where `set_checked` refuses, is `none`.
unfoldable pub set : CertExtensions → Bytes → ExtValue → Option CertExtensions
set e key value = elim (set_checked e key value) [ ok after ↦ some after | err x ↦ none ]

unfoldable pub get : CertExtensions → Bytes → Option ExtValue
get e key = BTreeMap.get key e.fields

encode_strings : List Bytes → Bytes
encode_strings [] = []
encode_strings (s ∷ ss) = u64_le (length s) ++ (s ++ encode_strings ss)

encode_value : ExtValue → Bytes
unfolding encode_strings
encode_value (ExtValue.str s) = 0 ∷ (u64_le (length s) ++ s)
encode_value (ExtValue.u64 n) = 1 ∷ u64_le n
encode_value (ExtValue.strings v) = 2 ∷ (u64_le (length v) ++ encode_strings v)

encode_fields : BTreeMap ExtValue → Bytes
unfolding encode_value
encode_fields [] = []
encode_fields ((k, v) ∷ m) = u64_le (length k) ++ (k ++ (encode_value v ++ encode_fields m))

-- The empty map hashes its length, 0, as every other map does.
unfoldable pub commitment : Crypto → CertExtensions → Bytes
unfolding encode_fields
commitment c e = derive_key c domain_cert_ext cert_version (
    text "a1::dyolo::cert::ext::v2.8.0"
    ++ (if is_empty e.fields then u64_le 0 else u64_le (length e.fields) ++ encode_fields e.fields))

-- ===== src/SqlCache/ArgumentKey.antt =====
-- db/sqlcache/argument_key.go, with hashSQL and legacyKeyForSQLHash of db/sqlcache/cache.go: the
-- cache key of a statement and its arguments.
-- Bytes, names and texts are lists of numbers, an integer or a float is its 64-bit pattern. SHA-256
-- and the JSON encoder are parameters; the scratch buffers of the source only save allocations.
pub mod Decoding
pub mod Tests
use request_generator.Common.{
  ℕ, zero, suc, ◌+◌, ◌*◌, ◌/◌, ◌%◌, ◌^◌, ◌<◌, Bool, true, false, ◌&&◌, not, Option, none, some,
  List, [], ◌∷◌, ◌++◌, ◌==◌, if◌then◌else◌, length,
}
use mathlib.Core.Option

pub data Value : Type 0 where
  nil_value : Value
  bool_value : Bool → Value
  int_value float_value : ℕ → Value
  text_value : List ℕ → Value
  nil_bytes : Value
  bytes_value : List ℕ → Value
  -- A value of any other type.
  other_value : ℕ → Value

pub record Argument : Type 0 where
  pub name : List ℕ
  pub ordinal : ℕ
  pub value : Value

-- The exponent bits of an infinity or a NaN.
unfoldable pub is_special : ℕ → Bool
is_special bits = bits / 2 ^ 52 % 2 ^ 11 == 2047

-- The first loop of keyForSQLHash: whether every argument has a standard type.
unfoldable pub is_standard : Value → Bool
is_standard (float_value bits) = not (is_special bits)
is_standard (other_value n) = false
is_standard v = true

unfoldable pub all_standard : List Argument → Bool
all_standard [] = true
all_standard (a ∷ args) = is_standard a.value && all_standard args

-- binary.LittleEndian.AppendUint64, for a width of bytes.
unfoldable pub little_endian : ℕ → ℕ → List ℕ
little_endian zero n = []
little_endian (suc w) n = (n % 256) ∷ little_endian w (n / 256)

abbrev pub word : ℕ → List ℕ
word n = little_endian 8 n

unfoldable pub encode_value : Value → List ℕ
encode_value nil_value = b'n' ∷ []
encode_value (bool_value true) = b't' ∷ []
encode_value (bool_value false) = b'f' ∷ []
encode_value (int_value n) = b'i' ∷ word n
encode_value (float_value n) = b'd' ∷ word n
encode_value (text_value s) = b's' ∷ (word (length s) ++ s)
encode_value nil_bytes = b'N' ∷ []
encode_value (bytes_value s) = b'b' ∷ (word (length s) ++ s)
encode_value (other_value n) = []

unfoldable pub encode_arguments : List Argument → List ℕ
encode_arguments [] = []
encode_arguments (a ∷ args) =
    word (length a.name)
    ++ (a.name ++ (word a.ordinal ++ (encode_value a.value ++ encode_arguments args)))

-- The domain marker, the argument count and the arguments.
unfoldable pub encode : List Argument → List ℕ
encode args = 0 ∷ b'S' ∷ b'Q' ∷ b'L' ∷ 1 ∷ (word (length args) ++ encode_arguments args)

module _ (sha256 : List ℕ → List ℕ) (marshal : List Argument → Option (List ℕ)) where
  -- Both paths end in the hash of the statement's hash and the arguments' hash.
  unfoldable pub combine : List ℕ → List ℕ → List ℕ
  combine query_hash encoded = sha256 (query_hash ++ sha256 encoded)

  unfoldable pub legacy_key : List ℕ → List Argument → Option (List ℕ)
  legacy_key query_hash args = Option.map (combine query_hash) (marshal args)

  unfoldable pub key : List ℕ → List Argument → Option (List ℕ)
  key query args =
      if all_standard args
      then some (combine (sha256 query) (encode args))
      else legacy_key (sha256 query) args

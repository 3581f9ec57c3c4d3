-- ===== src/SqlCache/ArgumentKey/Tests.antt =====
-- Encodings and keys at concrete arguments. The stand-in for SHA-256 maps every input to 32 zeros;
-- it shows that the assumption on its width can be met.
use request_generator.Common.{ℕ, ◌≡◌, ◌⊎◌, refl, arith, false, some, Option, [], ◌∷◌, List}
use request_generator.SqlCache.ArgumentKey.{
  Argument, int_value, text_value, float_value, other_value, is_special, is_standard, all_standard,
  little_endian, encode_value, encode_arguments, encode, combine, legacy_key, key,
}
use request_generator.SqlCache.ArgumentKey.Decoding.{Clash, encode-injective, key-injective}

program : Unit {0}
unfolding is_special is_standard all_standard little_endian encode_value encode_arguments encode
    combine legacy_key key
program = tt

abbrev zeros : List ℕ → List ℕ
zeros x =
    0 ∷ 0 ∷ 0 ∷ 0 ∷ 0 ∷ 0 ∷ 0 ∷ 0 ∷ 0 ∷ 0 ∷ 0 ∷ 0 ∷ 0 ∷ 0 ∷ 0 ∷ 0 ∷ 0 ∷ 0 ∷ 0 ∷ 0 ∷ 0 ∷ 0 ∷ 0 ∷ 0
    ∷ 0 ∷ 0 ∷ 0 ∷ 0 ∷ 0 ∷ 0 ∷ 0 ∷ 0 ∷ []

abbrev brackets : List Argument → Option (List ℕ)
brackets args = some (b'[' ∷ b']' ∷ [])

abbrev ids : List Argument
ids =
    record { name = []; ordinal = 1; value = int_value 258 }
    ∷ record { name = []; ordinal = 2; value = text_value (b'a' ∷ []) }
    ∷ []

abbrev times : List Argument
times = record { name = []; ordinal = 1; value = other_value 4 } ∷ []

int_bytes : encode_value (int_value 258) ≡ b'i' ∷ 2 ∷ 1 ∷ 0 ∷ 0 ∷ 0 ∷ 0 ∷ 0 ∷ 0 ∷ []
unfolding program
int_bytes = refl

-- 0x7ff0000000000000 is an infinity.
infinity_legacy : is_standard (float_value 0x7ff0_0000_0000_0000) ≡ false
unfolding program
infinity_legacy = refl

encode-injective_example : ids ≡ ids
unfolding program
encode-injective_example =
    encode-injective ids ids refl refl (omega arith) (omega arith) (omega arith) (omega arith) refl

abbrev statement : List ℕ
statement = b'q' ∷ []

key-injective_example :
    ((statement ≡ statement) × (ids ≡ ids))
    ⊎ Clash zeros statement statement (encode ids) (encode ids)
unfolding program
key-injective_example =
    key-injective zeros brackets (λ x. refl) statement statement ids ids (zeros []) refl refl
      (omega arith) (omega arith) (omega arith) (omega arith) refl refl

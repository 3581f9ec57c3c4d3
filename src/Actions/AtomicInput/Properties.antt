-- ===== src/Actions/AtomicInput/Properties.antt =====
-- atomic_input.go: what an atomic operation gets.
use request_generator.Common.{
  ℕ, ◌≡◌, ◌⊎◌, Bool, true, Option, none, some, List, [], ◌∷◌, All, arith,
}
use request_generator.Common.Assoc.{lookup}
use request_generator.Actions.Atomic.{Value, variants, validate}
use request_generator.Actions.AtomicInput.{
  Input, nil, Field, Libraries, Collected, of_collected, input_name,
}

-- The names of the module's fields that the request has.
abbrev pub asked : List Field → List (ℕ × Input) → List ℕ
asked [] input = []
asked (f ∷ fs) input = elim (lookup (input_name f) input) [
  | none ↦ asked fs input
  | some v ↦ input_name f ∷ asked fs input
]

abbrev pub names : List (ℕ × Value) → List ℕ
names [] = []
names ((n, a) ∷ out) = n ∷ names out

module _ (lib : Libraries) (json_valid : ℕ → Bool) where
  -- What json.Marshal returns, and a text that json.Unmarshal reads, is valid JSON.
  pub record Documented : Type 0 where
    pub marshal_valid : (v : Input) (d : ℕ) → lib.marshal v ≡ some d → json_valid d ≡ true
    pub object_valid : (s d : ℕ) → lib.object_text s ≡ some d → json_valid d ≡ true

  -- A successful conversion yields a value that validates.
  Sound : Option Value → Type 0
  Sound o = (a : Value) → o ≡ some a → validate json_valid a ≡ none

  collected-Sound : (c : Collected) → Sound (of_collected c)
  unfolding Sound validate variants
  collected-Sound c a e = ground arith

  abbrev pub Usable : List (ℕ × Input) → List (ℕ × Value) → Type 0
  Usable input =
      All (λ (x : ℕ × Value). (lookup x.0 input ≡ some nil) ⊎ (validate json_valid x.1 ≡ none))

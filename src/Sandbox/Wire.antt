-- ===== src/Sandbox/Wire.antt =====
-- A filter program on its way to the child process: `MarshalFilter` of seccomp.go and the decoding in
-- `ChildMain` of exec.go. A byte slice is a list of numbers; encoding/base64 is the record `Base64`.
use flowgent.Prelude.{ℕ, ◌+◌, ◌*◌, ◌/◌, ◌%◌, String, Option, none, some, List, [], ◌∷◌, ◌++◌, ◌≡◌}
use flowgent.Sandbox.Bpf.{SockFilter}

-- base64.StdEncoding: what decodes is the encoding's inverse on what it encoded.
pub record Base64 : Type 0 where
  pub encode_to_string : List ℕ → String
  pub decode_string : String → Option (List ℕ)
  pub decode-encode : (bytes : List ℕ) → decode_string (encode_to_string bytes) ≡ some bytes

-- byte(x >> (8 * i))
abbrev pub byte_at : ℕ → ℕ → ℕ
byte_at i x = x / i % 256

-- The eight bytes of one instruction.
unfoldable pub flat_of : SockFilter → List ℕ
flat_of inst =
    byte_at 1 inst.code
    ∷ byte_at 256 inst.code
    ∷ inst.jt
    ∷ inst.jf
    ∷ byte_at 1 inst.k
    ∷ byte_at 256 inst.k
    ∷ byte_at 65536 inst.k
    ∷ byte_at 16777216 inst.k
    ∷ []

unfoldable pub flatten : List SockFilter → List ℕ
unfolding flat_of
flatten [] = []
flatten (inst ∷ insns) = flat_of inst ++ flatten insns

-- uint16(b0) | uint16(b1)<<8, where the bits do not overlap: the sum.
abbrev pub uint16_of : ℕ → ℕ → ℕ
uint16_of b0 b1 = b0 + b1 * 256

abbrev pub uint32_of : ℕ → ℕ → ℕ → ℕ → ℕ
uint32_of b0 b1 b2 b3 = b0 + b1 * 256 + b2 * 65536 + b3 * 16777216

-- The loop of ChildMain: as many instructions as there are full groups of eight bytes.
unfoldable pub unflatten : List ℕ → List SockFilter
unflatten (c0 ∷ c1 ∷ jt ∷ jf ∷ k0 ∷ k1 ∷ k2 ∷ k3 ∷ flat) =
    record { code = uint16_of c0 c1; jt = jt; jf = jf; k = uint32_of k0 k1 k2 k3 } ∷ unflatten flat
unflatten _ = []

module _ (base64 : Base64) where
  -- MarshalFilter, of a program that there is.
  unfoldable pub marshal_filter : List SockFilter → String
  unfolding flatten
  marshal_filter insns = base64.encode_to_string (flatten insns)

  -- The decoding in ChildMain: none is one of its two errors, of base64 and of an empty filter.
  unfoldable pub decode_filter : String → Option (List SockFilter)
  unfolding unflatten
  decode_filter text = elim (base64.decode_string text) [
    | none ↦ none
    | some flat ↦ elim (unflatten flat) [ [] ↦ none | i ∷ insns ↦ some (i ∷ insns) ]
  ]

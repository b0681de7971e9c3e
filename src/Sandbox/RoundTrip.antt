-- ===== src/Sandbox/RoundTrip.antt =====
-- The child process gets the program that the parent built (seccomp.go, exec.go).
use flowgent.Prelude.{ℕ, ◌<◌, List, [], ◌∷◌, ◌≡◌, refl, some, arith}
use flowgent.Sandbox.Bpf.{SockFilter}
use flowgent.Sandbox.Wire.{
  Base64, flat_of, flatten, unflatten, byte_at, uint16_of, uint32_of, marshal_filter, decode_filter,
}

-- The fields of an instruction fit their types: uint16, uint8, uint8, uint32.
pub record Fits (i : SockFilter) : Type 0 where
  pub code : i.code < 65536
  pub k : i.k < 4294967296

abbrev pub AllFit : List SockFilter → Type 0
AllFit [] = Unit
AllFit (i ∷ p) = Fits i × AllFit p

word16 : (x : ℕ) → x < 65536 → uint16_of (byte_at 1 x) (byte_at 256 x) ≡ x
word16 x h = omega arith

word32 :
    (x : ℕ)
    → x < 4294967296
    → uint32_of (byte_at 1 x) (byte_at 256 x) (byte_at 65536 x) (byte_at 16777216 x) ≡ x
word32 x h = omega arith

unflatten-flatten : (p : List SockFilter) → AllFit p → unflatten (flatten p) ≡ p
unfolding unflatten flatten flat_of
unflatten-flatten [] h = refl
unflatten-flatten (i ∷ p) h =
    rw (word16 i.code h.0.code, word32 i.k h.0.k, unflatten-flatten p h.1) refl

-- A program that is not empty, with fields that fit their machine types, is what the child decodes
-- from what the parent encoded, instruction for instruction.
pub decode_filter-marshal_filter :
    (base64 : Base64) (i : SockFilter) (p : List SockFilter)
    → AllFit (i ∷ p)
    → decode_filter base64 (marshal_filter base64 (i ∷ p)) ≡ some (i ∷ p)
unfolding decode_filter marshal_filter
decode_filter-marshal_filter base64 i p h =
    rw (decode_filter, base64.decode-encode (flatten (i ∷ p)), unflatten-flatten (i ∷ p) h) refl

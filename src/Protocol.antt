-- ===== src/Protocol.antt =====
-- native/host/protocol.h and protocol.cpp: frames of JSON over a pipe. The pipe's calls `ReadFile` and
-- `WriteFile` and the JSON library are the parameters `Pipe` and `Json`.
pub mod RoundTrip
mod Tests
use Prim.Native.Nat.{min}
use mathlib.Core.Option
use cfb27_lua_hook.Prelude.{
  ℕ, zero, suc, ◌+◌, ◌-◌, ◌*◌, ◌/◌, ◌%◌, ◌^◌, String, Bool, true, false, ◌||◌, Option, none, some,
  List, [], ◌∷◌, ◌++◌, ltb, ◌==◌, if◌then◌else◌, length, take, drop,
}

abbrev pub version : ℕ
version = 1

abbrev pub max_frame_bytes : ℕ
max_frame_bytes = 1024 * 1024

abbrev pub dword_max : ℕ
dword_max = 0xFFFFFFFF

-- `read_file` gives the bytes read, at most as many as asked for, `write_file` how many of the bytes
-- were written; both give `none` where the call fails.
pub record Pipe (S : Type 0) : Type 0 where
  pub read_file : ℕ → S → Option (List ℕ) × S
  pub write_file : List ℕ → S → Option ℕ × S

-- What the host uses of the library: its parser, which may discard the text, its printer, and values.
pub record Json (J : Type 0) : Type 0 where
  pub parse : List ℕ → Option J
  pub dump : J → List ℕ
  pub object : List (String × J) → J
  pub number : ℕ → J
  pub boolean : Bool → J
  pub string : String → J

pub data Received (J : Type 0) : Type 0 where
  value : J → Received J
  error : String → Received J

-- The size in the header's four bytes, and the header of a size.
unfoldable pub frame_size : List ℕ → ℕ
frame_size [] = 0
frame_size (a ∷ []) = 0
frame_size (a ∷ b ∷ []) = 0
frame_size (a ∷ b ∷ c ∷ []) = 0
frame_size (a ∷ b ∷ c ∷ d ∷ rest) = a + b * 2 ^ 8 + c * 2 ^ 16 + d * 2 ^ 24

unfoldable pub header_of : ℕ → List ℕ
header_of size =
    size % 2 ^ 8 ∷ size / 2 ^ 8 % 2 ^ 8 ∷ size / 2 ^ 16 % 2 ^ 8 ∷ size / 2 ^ 24 % 2 ^ 8 ∷ []

module _ {S : Type 0} (pipe : Pipe S) where
  -- A call that goes through moves one byte at least, so as many rounds as there are bytes are enough.
  unfoldable pub read_exact : ℕ → ℕ → S → Option (List ℕ) × S
  read_exact rounds zero s = (some [], s)
  read_exact zero (suc size) s = (none, s)
  read_exact (suc rounds) (suc size) s =
      let (read, s') = pipe.read_file (min (suc size) dword_max) s in
      elim read [
        | none ↦ (none, s')
        | some bytes ↦ elim (length bytes == 0) [
          | true ↦ (none, s')
          | false ↦
              let (rest, s'') = read_exact rounds (suc size - length bytes) s' in
              (Option.map (λ more. bytes ++ more) rest, s'')
        ]
      ]

  unfoldable pub write_exact : ℕ → List ℕ → S → Bool × S
  write_exact rounds [] s = (true, s)
  write_exact zero (b ∷ bs) s = (false, s)
  write_exact (suc rounds) (b ∷ bs) s =
      let (written, s') = pipe.write_file (take (min (length (b ∷ bs)) dword_max) (b ∷ bs)) s in
      elim written [
        | none ↦ (false, s')
        | some n ↦ elim (n == 0) [
          | true ↦ (false, s')
          | false ↦ write_exact rounds (drop n (b ∷ bs)) s'
        ]
      ]

  module _ {J : Type 0} (json : Json J) where
    unfoldable pub read_body : ℕ → S → Received J × S
    read_body size s =
        if (size == 0) || ltb max_frame_bytes size
        then (error "Frame size is outside the supported range", s)
        else (let (body, s') = read_exact size size s in
            elim body [
              | none ↦ (error "Could not read the complete frame body", s')
              | some bytes ↦ elim (json.parse bytes) [
                | none ↦ (error "Frame body is not valid JSON", s')
                | some v ↦ (value v, s')
              ]
            ])

    unfoldable pub read_frame : S → Received J × S
    read_frame s =
        let (header, s') = read_exact 4 4 s in
        elim header [
          | none ↦ (error "Could not read the frame header", s')
          | some bytes ↦ read_body (frame_size bytes) s'
        ]

    -- `none` where the frame was written, otherwise the error.
    unfoldable pub write_frame : J → S → Option String × S
    write_frame v s =
        let body = json.dump v in
        if (length body == 0) || ltb max_frame_bytes (length body)
        then (some "Response frame size is outside the supported range", s)
        else (let (sent, s') = write_exact 4 (header_of (length body)) s in
            elim sent [
              | false ↦ (some "Could not write the complete response frame", s')
              | true ↦
                  let (sent', s'') = write_exact (length body) body s' in
                  (if sent' then none else some "Could not write the complete response frame", s'')
            ])

    unfoldable pub error_response : String → String → String → J → J
    error_response id code message details = json.object (
        ("protocol", json.number version)
        ∷ ("id", json.string id)
        ∷ ("ok", json.boolean false)
        ∷ (
          "error",
          json.object (
              ("code", json.string code)
              ∷ ("message", json.string message)
              ∷ ("details", details)
              ∷ []),
        )
        ∷ [])

    -- One connected client of `Serve`; the handler may change the state.
    unfoldable pub response_to : (J → S → J × S) → Received J → S → J × S
    response_to handler (value request) s = handler request s
    response_to handler (error message) s =
        (error_response "" "INVALID_REQUEST" message (json.object []), s)

    unfoldable pub serve_client : (J → S → J × S) → S → Option String × S
    serve_client handler s =
        let (request, s1) = read_frame s in
        let (response, s2) = response_to handler request s1 in write_frame response s2

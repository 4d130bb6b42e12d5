-- ===== src/Protocol/Tests.antt =====
-- Frames of native/host/protocol.cpp over a pipe that moves few bytes at a time.
use Prim.Native.Nat.{min}
use cfb27_lua_hook.Prelude.{
  ℕ, String, ◌≡◌, refl, Option, none, some, List, [], ◌∷◌, ◌++◌, arith, ◌==◌, if◌then◌else◌, length,
  take, drop,
}
use cfb27_lua_hook.Protocol.{
  Pipe, Json, Received, value, error, frame_size, header_of, read_exact, write_exact, read_body,
  read_frame, write_frame,
}
use cfb27_lua_hook.Protocol.RoundTrip.{IsOrdered, read_frame-write_frame}

-- Three bytes go in at once and two come out.
abbrev narrow : Pipe (List ℕ)
narrow = record {
  read_file =
      λ size s. (some (take (min 2 (min size (length s))) s), drop (min 2 (min size (length s))) s);
  write_file = λ bytes s. (some (min 3 (length bytes)), s ++ take (min 3 (length bytes)) bytes);
}

narrow-IsOrdered : IsOrdered narrow (λ s. s)
narrow-IsOrdered = record {
  writes = λ bytes s pos. (min 3 (length bytes), ground arith, ground arith, refl, refl);
  reads = λ size s pos there.
      (min 2 (min size (length s)), ground arith, ground arith, ground arith, refl, refl);
}

-- Values that are their own text, none of which is empty.
abbrev text_only : Json (List ℕ)
text_only = record {
  parse = λ text. if length text == 0 then none else some text;
  dump = λ text. text;
  object = λ fields. [];
  number = λ n. n ∷ [];
  boolean = λ b. 0 ∷ [];
  string = λ s. [];
}

abbrev message : List ℕ
message = 91 ∷ 49 ∷ 44 ∷ 50 ∷ 93 ∷ []

abbrev sent : Option String × List ℕ
sent = write_frame narrow text_only message []

abbrev got : Received (List ℕ) × List ℕ
got = read_frame narrow text_only sent.1

sent_test : sent ≡ (none, 5 ∷ 0 ∷ 0 ∷ 0 ∷ 91 ∷ 49 ∷ 44 ∷ 50 ∷ 93 ∷ [])
unfolding write_frame write_exact header_of
sent_test = refl

-- A header whose body is missing.
short_test :
    (read_frame narrow text_only (5 ∷ 0 ∷ 0 ∷ 0 ∷ 91 ∷ [])).0
    ≡ error "Could not read the complete frame body"
unfolding read_frame read_exact read_body frame_size
short_test = refl

read_frame-write_frame_example : (sent.0 ≡ none) × (got.0 ≡ value message) × (got.1 ≡ [])
read_frame-write_frame_example =
    read_frame-write_frame narrow (λ s. s) narrow-IsOrdered text_only message [] refl (omega arith)
      (omega arith) refl

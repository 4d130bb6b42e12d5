-- ===== src/Protocol/RoundTrip.antt =====
-- Frames over a pipe that keeps its bytes in order (native/host/protocol.cpp).
use Prim.Native.Nat.{min}
use mathlib.Core.Path.{ap₂}
use mathlib.Core.List.{append-nil, append_assoc}
use cfb27_lua_hook.Prelude.{
  ℕ, zero, suc, ◌-◌, ◌≤◌, ◌<◌, ◌≡◌, refl, sym, ap, ◌∙◌, true, false, none, some, List, [], ◌∷◌,
  ◌++◌, arith, ◌==◌, length, take, drop, length-append,
}
use cfb27_lua_hook.Protocol.{
  max_frame_bytes, dword_max, Pipe, Json, value, frame_size, header_of, read_exact, write_exact,
  read_body, read_frame, write_frame,
}

-- A pipe whose bytes come out as they went in, on which no call fails: a write takes some of the bytes
-- that it is given and puts them behind those that are there, a read takes some of the first.
pub record IsOrdered {S : Type 0} (pipe : Pipe S) (content : S → List ℕ) : Type 0 where
  pub writes :
      (bytes : List ℕ) (s : S)
      → 0 < length bytes
      → (n : ℕ) × (0 < n)
        × (n ≤ length bytes)
        × ((pipe.write_file bytes s).0 ≡ some n)
        × (content (pipe.write_file bytes s).1 ≡ content s ++ take n bytes)
  pub reads :
      (size : ℕ) (s : S)
      → 0 < size
      → 0 < length (content s)
      → (n : ℕ) × (0 < n)
        × (n ≤ size)
        × (n ≤ length (content s))
        × ((pipe.read_file size s).0 ≡ some (take n (content s)))
        × (content (pipe.read_file size s).1 ≡ drop n (content s))

take_nil : (n : ℕ) → take {A = ℕ} n [] ≡ []
take_nil zero = refl
take_nil (suc n) = refl

drop_nil : (n : ℕ) → drop {A = ℕ} n [] ≡ []
drop_nil zero = refl
drop_nil (suc n) = refl

take-drop : (xs : List ℕ) (n m : ℕ) → n ≤ m → take n xs ++ take (m - n) (drop n xs) ≡ take m xs
take-drop xs zero m h = let e : m - 0 ≡ m = omega arith in ap (λ (k : ℕ). take k xs) e
take-drop [] (suc n) zero h = absurd (omega arith)
take-drop [] (suc n) (suc m) h = take_nil (suc m - suc n)
take-drop (x ∷ xs) (suc n) zero h = absurd (omega arith)
take-drop (x ∷ xs) (suc n) (suc m) h =
    let e : suc m - suc n ≡ m - n = omega arith in
    rw e (ap (λ ys. x ∷ ys) (take-drop xs n m (omega arith)))

drop-drop : (xs : List ℕ) (n m : ℕ) → n ≤ m → drop (m - n) (drop n xs) ≡ drop m xs
drop-drop xs zero m h = let e : m - 0 ≡ m = omega arith in ap (λ (k : ℕ). drop k xs) e
drop-drop [] (suc n) zero h = absurd (omega arith)
drop-drop [] (suc n) (suc m) h = drop_nil (suc m - suc n)
drop-drop (x ∷ xs) (suc n) zero h = absurd (omega arith)
drop-drop (x ∷ xs) (suc n) (suc m) h =
    let e : suc m - suc n ≡ m - n = omega arith in rw e (drop-drop xs n m (omega arith))

append-take-drop : (xs : List ℕ) (n : ℕ) → take n xs ++ drop n xs ≡ xs
append-take-drop xs zero = refl
append-take-drop [] (suc n) = refl
append-take-drop (x ∷ xs) (suc n) = ap (λ ys. x ∷ ys) (append-take-drop xs n)

length-take : (xs : List ℕ) (n : ℕ) → n ≤ length xs → length (take n xs) ≡ n
length-take xs zero h = refl
length-take [] (suc n) h = absurd (omega arith)
length-take (x ∷ xs) (suc n) h = omega (arith, length-take xs n (omega arith))

length-drop : (xs : List ℕ) (n : ℕ) → n ≤ length xs → length (drop n xs) ≡ length xs - n
length-drop xs zero h = omega arith
length-drop [] (suc n) h = omega arith
length-drop (x ∷ xs) (suc n) h = omega (arith, length-drop xs n (omega arith))

take-take : (xs : List ℕ) (n m : ℕ) → n ≤ m → take n (take m xs) ≡ take n xs
take-take xs zero m h = refl
take-take [] (suc n) zero h = absurd (omega arith)
take-take [] (suc n) (suc m) h = refl
take-take (x ∷ xs) (suc n) zero h = absurd (omega arith)
take-take (x ∷ xs) (suc n) (suc m) h = ap (λ ys. x ∷ ys) (take-take xs n m (omega arith))

take-append : (xs ys : List ℕ) → take (length xs) (xs ++ ys) ≡ xs
take-append [] ys = refl
take-append (x ∷ xs) ys = ap (λ zs. x ∷ zs) (take-append xs ys)

drop-append : (xs ys : List ℕ) → drop (length xs) (xs ++ ys) ≡ ys
drop-append [] ys = refl
drop-append (x ∷ xs) ys = drop-append xs ys

frame_size-header_of : (size : ℕ) → size ≤ max_frame_bytes → frame_size (header_of size) ≡ size
unfolding frame_size header_of
frame_size-header_of size h = omega arith

header_length : (size : ℕ) → length (header_of size) ≡ 4
unfolding header_of
header_length size = refl

module _ {S : Type 0} (pipe : Pipe S) (content : S → List ℕ)
    (ordered : IsOrdered pipe content) where
  read_exact-take :
      (rounds size : ℕ) (s : S)
      → size ≤ rounds
      → size ≤ length (content s)
      → ((read_exact pipe rounds size s).0 ≡ some (take size (content s)))
        × (content (read_exact pipe rounds size s).1 ≡ drop size (content s))
  unfolding read_exact
  read_exact-take rounds zero s enough there = (refl, refl)
  read_exact-take zero (suc size) s enough there = absurd (omega arith)
  read_exact-take (suc rounds) (suc size) s enough there =
      let requested = min (suc size) dword_max in
      let (n, pos, le, most, gives, leaves) =
        ordered.reads requested s (ground arith) (omega arith) in
      let s' = (pipe.read_file requested s).1 in
      let bytes = take n (content s) in
      let count = length-take (content s) n most in
      let some_bytes : (length bytes == 0) ≡ false = ground (arith, count) in
      let least : n ≤ suc size = ground arith in
      let left = length-drop (content s) n most in
      let inner : (suc size - length bytes) ≡ suc size - n = omega (arith, count) in
      let next =
        read_exact-take rounds (suc size - length bytes) s' (omega (arith, count))
          (rw leaves (omega (arith, count, left))) in
      let rest = read_exact pipe rounds (suc size - length bytes) s' in
      let rest_bytes : rest.0 ≡ some (take (suc size - n) (drop n (content s))) =
        next.0 ∙ ap₂ (λ (k : ℕ) (c : List ℕ). some (take k c)) inner leaves in
      let rest_content : content rest.1 ≡ drop (suc size) (content s) =
        next.1
        ∙ ap₂ (λ (k : ℕ) (c : List ℕ). drop k c) inner leaves
        ∙ drop-drop (content s) n (suc size) least in
      let whole = take-drop (content s) n (suc size) least in
      (
        ground (arith, gives, some_bytes, rest_bytes, whole),
        ground (arith, gives, some_bytes, rest_content),
      )

  write_exact-append :
      (rounds : ℕ) (bytes : List ℕ) (s : S)
      → length bytes ≤ rounds
      → ((write_exact pipe rounds bytes s).0 ≡ true)
        × (content (write_exact pipe rounds bytes s).1 ≡ content s ++ bytes)
  unfolding write_exact
  write_exact-append rounds [] s enough = (refl, sym (append-nil (content s)))
  write_exact-append zero (b ∷ bs) s enough = absurd (omega arith)
  write_exact-append (suc rounds) (b ∷ bs) s enough =
      let offered = take (min (length (b ∷ bs)) dword_max) (b ∷ bs) in
      let size = length-take (b ∷ bs) (min (length (b ∷ bs)) dword_max) (ground arith) in
      let (n, pos, le, gives, leaves) = ordered.writes offered s (ground (arith, size)) in
      let s' = (pipe.write_file offered s).1 in
      let next =
        write_exact-append rounds (drop n (b ∷ bs)) s'
          (omega (arith, length-drop (b ∷ bs) n (ground (arith, size)))) in
      let rest = write_exact pipe rounds (drop n (b ∷ bs)) s' in
      let some_bytes : (n == 0) ≡ false = ground arith in
      let prefix : take n offered ≡ take n (b ∷ bs) =
        take-take (b ∷ bs) n (min (length (b ∷ bs)) dword_max) (omega (arith, size)) in
      let rest_content : content rest.1 ≡ content s ++ b ∷ bs =
        next.1
        ∙ ap (λ (c : List ℕ). c ++ drop n (b ∷ bs))
            (leaves ∙ ap (λ (c : List ℕ). content s ++ c) prefix)
        ∙ append_assoc (content s) (take n (b ∷ bs)) (drop n (b ∷ bs))
        ∙ ap (λ (c : List ℕ). content s ++ c) (append-take-drop (b ∷ bs) n) in
      (ground (arith, gives, some_bytes, next.0), ground (arith, gives, some_bytes, rest_content))

  read_exact-all :
      (bytes : List ℕ) (rest : List ℕ) (s : S)
      → content s ≡ bytes ++ rest
      → ((read_exact pipe (length bytes) (length bytes) s).0 ≡ some bytes)
        × (content (read_exact pipe (length bytes) (length bytes) s).1 ≡ rest)
  read_exact-all bytes rest s there =
      let size = length-append bytes rest in
      let (read, left) =
        read_exact-take (length bytes) (length bytes) s (omega arith)
          (rw there (omega (arith, size))) in
      (
        read
            ∙ ap (λ (c : List ℕ). some (take (length bytes) c)) there
            ∙ ap (λ (c : List ℕ). some c) (take-append bytes rest),
        left ∙ ap (λ (c : List ℕ). drop (length bytes) c) there ∙ drop-append bytes rest,
      )

  module _ {J : Type 0} (json : Json J) where
    read_body-value :
        (v : J) (s : S)
        → content s ≡ json.dump v
        → 0 < length (json.dump v)
        → length (json.dump v) ≤ max_frame_bytes
        → json.parse (json.dump v) ≡ some v
        → ((read_body pipe json (length (json.dump v)) s).0 ≡ value v)
          × (content (read_body pipe json (length (json.dump v)) s).1 ≡ [])
    unfolding read_body
    read_body-value v s there pos small parsed =
        let (read, left) =
          read_exact-all (json.dump v) [] s (there ∙ sym (append-nil (json.dump v))) in
        (ground (arith, read, parsed), ground (arith, read, parsed, left))

    write_frame-sent :
        (v : J) (s : S)
        → content s ≡ []
        → 0 < length (json.dump v)
        → length (json.dump v) ≤ max_frame_bytes
        → ((write_frame pipe json v s).0 ≡ none)
          × (content (write_frame pipe json v s).1
              ≡ header_of (length (json.dump v)) ++ json.dump v)
    unfolding write_frame
    write_frame-sent v s empty pos small =
        let body = json.dump v in
        let header = header_of (length body) in
        let s1 = (write_exact pipe 4 header s).1 in
        let (sent, first) =
          write_exact-append 4 header s (omega (arith, header_length (length body))) in
        let (sent', second) = write_exact-append (length body) body s1 (omega arith) in
        let whole : content (write_exact pipe (length body) body s1).1 ≡ header ++ body =
          second
          ∙ ap (λ (c : List ℕ). c ++ body) (first ∙ ap (λ (c : List ℕ). c ++ header) empty) in
        (ground (arith, sent, sent'), ground (arith, sent, sent', whole))

    -- A frame that was written into an empty pipe is read back, if its value has a text of legal size that
    -- the parser takes for it, and leaves the pipe empty; no call of either side runs out of rounds.
    pub read_frame-write_frame :
        (v : J) (s : S)
        → content s ≡ []
        → 0 < length (json.dump v)
        → length (json.dump v) ≤ max_frame_bytes
        → json.parse (json.dump v) ≡ some v
        → let sent = write_frame pipe json v s in
          let got = read_frame pipe json sent.1 in
          (sent.0 ≡ none) × (got.0 ≡ value v) × (content got.1 ≡ [])
    unfolding read_frame header_of
    read_frame-write_frame v s empty pos small parsed =
        let body = json.dump v in
        let (sent, there) = write_frame-sent v s empty pos small in
        let s2 = (write_frame pipe json v s).1 in
        let (header, left) = read_exact-all (header_of (length body)) body s2 there in
        let s3 = (read_exact pipe 4 4 s2).1 in
        let size = frame_size-header_of (length body) small in
        let (got, empty') = read_body-value v s3 left pos small parsed in
        (sent, ground (arith, header, size, got), ground (arith, header, size, empty'))

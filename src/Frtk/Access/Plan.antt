-- ===== src/Frtk/Access/Plan.antt =====
-- The loop of `PlanFieldWrites` of native/host/frtk_record_access.cpp that finds the runs of bytes in
-- which a record differs from what it is to be.
use cfb27_lua_hook.Prelude.{ℕ, ◌+◌, true, false, Option, none, some, List, [], ◌∷◌, ◌++◌, ◌==◌}
use cfb27_lua_hook.Reader.Text.{to_hex, upper_digit}

pub record Run : Type 0 where
  pub begin : ℕ
  pub expected : List ℕ
  pub replacement : List ℕ

-- `Address`: "0x" and upper-case digits.
unfoldable pub address_text : ℕ → List ℕ
address_text address = b'0' ∷ b'x' ∷ to_hex upper_digit 16 address

unfoldable pub extend : Run → ℕ → ℕ → Run
extend run x y = record run {
  expected = run.expected ++ x ∷ [];
  replacement = run.replacement ++ y ∷ [];
}

abbrev pub close : Option Run → List Run
close none = []
close (some run) = run ∷ []

-- From the index on, with the run that is open if any.
unfoldable pub diff : ℕ → Option Run → List ℕ → List ℕ → List Run
diff index open_run [] ys = close open_run
diff index open_run (x ∷ xs) [] = close open_run
diff index none (x ∷ xs) (y ∷ ys) = elim (x == y) [
  | true ↦ diff (index + 1) none xs ys
  | false ↦
      diff (index + 1) (some (record { begin = index; expected = x ∷ []; replacement = y ∷ [] })) xs
        ys
]
diff index (some run) (x ∷ xs) (y ∷ ys) = elim (x == y) [
  | true ↦ run ∷ diff (index + 1) none xs ys
  | false ↦ diff (index + 1) (some (extend run x y)) xs ys
]

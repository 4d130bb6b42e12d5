-- ===== src/Frtk/Access/Words.antt =====
-- `SwapWords` of native/host/frtk_record_access.cpp: the bytes of each word of four in reverse.
use cfb27_lua_hook.Prelude.{ℕ, ◌≡◌, refl, ap, List, [], ◌∷◌, arith, length}

unfoldable pub swap_words : List ℕ → List ℕ
swap_words [] = []
swap_words (a ∷ []) = a ∷ []
swap_words (a ∷ b ∷ []) = b ∷ a ∷ []
swap_words (a ∷ b ∷ c ∷ []) = c ∷ b ∷ a ∷ []
swap_words (a ∷ b ∷ c ∷ d ∷ rest) = d ∷ c ∷ b ∷ a ∷ swap_words rest

pub swap_words-involutive : (bytes : List ℕ) → swap_words (swap_words bytes) ≡ bytes
unfolding swap_words
swap_words-involutive [] = refl
swap_words-involutive (a ∷ []) = refl
swap_words-involutive (a ∷ b ∷ []) = refl
swap_words-involutive (a ∷ b ∷ c ∷ []) = refl
swap_words-involutive (a ∷ b ∷ c ∷ d ∷ rest) =
    ap (λ xs. a ∷ b ∷ c ∷ d ∷ xs) (swap_words-involutive rest)

pub length-swap_words : (bytes : List ℕ) → length (swap_words bytes) ≡ length bytes
unfolding swap_words
length-swap_words [] = refl
length-swap_words (a ∷ []) = refl
length-swap_words (a ∷ b ∷ []) = refl
length-swap_words (a ∷ b ∷ c ∷ []) = refl
length-swap_words (a ∷ b ∷ c ∷ d ∷ rest) = omega (arith, length-swap_words rest)

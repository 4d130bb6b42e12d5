-- ===== src/Memory/Transaction/Rollback.antt =====
-- `RollBack` of native/host/memory_transaction.cpp puts the memory back.
use mathlib.Core.Path.{fun_ext}
use native.Mathlib.Decide.{dec_lt, dec_le}
use cfb27_lua_hook.Prelude.{
  ℕ, ◌+◌, ◌≡◌, refl, sym, ap, ◌∙◌, ◌⊎◌, inl, inr, Bool, true, ◌&&◌, Option, none, some, List, [],
  ◌∷◌, reverse, arith, and-true, bytes_eq→eq, length, All, All-of-reverse,
}
use cfb27_lua_hook.Memory.Backend.{MemoryBackend, IsCoherent, Outside, bytes_at, bytes_at-eq}
use cfb27_lua_hook.Memory.Transaction.{OperationResult, rolled_back_verified, is_readback, reset}
use cfb27_lua_hook.Memory.Transaction.Run.{Attempt, restore_all, confirm_all, roll_back}

pub is_readback→eq : (o : Option (List ℕ)) (bs : List ℕ) → is_readback o bs ≡ true → o ≡ some bs
is_readback→eq none bs h = cc
is_readback→eq (some readback) bs h = ap some (bytes_eq→eq readback bs h)

-- The address is in none of the attempt's bytes.
abbrev pub Untouched : ℕ → Attempt → Type 0
Untouched x (index, p, original) = Outside p.address (length original) x

-- The attempt holds the bytes that `view` has at its address.
abbrev pub Holds : (ℕ → ℕ) → Attempt → Type 0
Holds view (index, p, original) = bytes_at view p.address (length original) ≡ original

module _ {S : Type 0} (b : MemoryBackend S) (view : S → ℕ → ℕ) (c : IsCoherent b view) where
  restore_all-Untouched :
      (attempted : List Attempt) (r : Bool) (results : List OperationResult) (s : S) (x : ℕ)
      → All (Untouched x) attempted
      → view (restore_all b attempted r results s).2 x ≡ view s x
  unfolding restore_all
  restore_all-Untouched [] r results s x h = refl
  restore_all-Untouched ((index, p, original) ∷ older) r results s x h =
      let written = b.write p.address original s in
      restore_all-Untouched older (written.0 && r) (reset index results) written.1 x h.1
      ∙ c.write_outside p.address original s x h.0

  confirm_all-keeps :
      (attempted : List Attempt) (r : Bool) (s : S) (x : ℕ)
      → view (confirm_all b attempted r s).1 x ≡ view s x
  unfolding confirm_all
  confirm_all-keeps [] r s x = refl
  confirm_all-keeps ((index, p, original) ∷ newer) r s x =
      let readback = b.read p.address (length original) s in
      confirm_all-keeps newer (is_readback readback.0 original && r) readback.1 x
      ∙ c.read_keeps p.address (length original) s x

  confirm_all-Holds :
      (attempted : List Attempt) (r : Bool) (s : S)
      → (confirm_all b attempted r s).0 ≡ true
      → (r ≡ true) × All (Holds (view s)) attempted
  unfolding confirm_all
  confirm_all-Holds [] r s h = (h, tt)
  confirm_all-Holds ((index, p, original) ∷ newer) r s h =
      let readback = b.read p.address (length original) s in
      let later = confirm_all-Holds newer (is_readback readback.0 original && r) readback.1 h in
      let kept : view readback.1 ≡ view s = fun_ext (c.read_keeps p.address (length original) s) in
      let (same, before) = and-true (is_readback readback.0 original) r later.0 in
      let here =
        c.read_view p.address (length original) s original
          (is_readback→eq readback.0 original same) in
      (before, (sym here, rw kept at later.1))

  -- Where all attempts hold what `before` had, `after` agrees with it at every address that one
  -- of them covers.
  touched-or-same :
      (before after : ℕ → ℕ) (attempted : List Attempt) (x : ℕ)
      → All (Holds before) attempted
      → All (Holds after) attempted
      → All (Untouched x) attempted ⊎ (after x ≡ before x)
  touched-or-same before after [] x h k = inl tt
  touched-or-same before after ((index, p, original) ∷ older) x h k = elim (dec_lt x p.address) [
    | yes below ↦ grind (arith, touched-or-same before after older x h.1 k.1)
    | no above ↦ elim (dec_le (p.address + length original) x) [
      | yes beyond ↦ grind (arith, touched-or-same before after older x h.1 k.1)
      | no within ↦ inr (
          bytes_at-eq after before p.address (length original) x (k.0 ∙ sym h.0) (omega arith)
            (omega arith))
    ]
  ]

  -- A rollback that reports success leaves the memory as `before`, if only attempted bytes differed.
  pub roll_back-restores :
      (before : ℕ → ℕ) (attempted : List Attempt) (results : List OperationResult) (s : S)
      → All (Holds before) attempted
      → ((x : ℕ) → All (Untouched x) attempted → view s x ≡ before x)
      → (roll_back b attempted results s).0.status ≡ rolled_back_verified
      → (x : ℕ) → view (roll_back b attempted results s).1 x ≡ before x
  unfolding roll_back
  roll_back-restores before attempted results s held agrees e x =
      let undone = restore_all b attempted true results s in
      let s' = undone.2 in
      let done = confirm_all b (reverse attempted) undone.0 s' in
      let ended : done.0 ≡ true = ground arith in
      let after : All (Holds (view s')) attempted =
        All-of-reverse (Holds (view s')) attempted
          (confirm_all-Holds (reverse attempted) undone.0 s' ended).1 in
      let same : view s' x ≡ before x =
        elim (touched-or-same before (view s') attempted x held after) [
          | inl untouched ↦
              restore_all-Untouched attempted true results s x untouched ∙ agrees x untouched
          | inr same ↦ same
        ] in
      rw ended (confirm_all-keeps (reverse attempted) undone.0 s' x ∙ same)

-- ===== src/NativeCall/Calls.antt =====
-- When `Invoke` of native/host/native_call.cpp calls the target, and what it answers.
use cfb27_lua_hook.Prelude.{
  ℕ, ◌/◌, ◌%◌, ◌^◌, ◌≤◌, ◌<◌, ◌≡◌, refl, sym, ap, ◌↔◌, inl, inr, true, some, List, arith, ltb,
  Bool-cases, Option-cases, length,
}
use cfb27_lua_hook.NativeCall.{
  PageInfo, Argument, Outcome, returned, fault, Process, ok, too_many_arguments, invalid_target,
  exception, Result, max_arguments, is_executable_page, is_executable_address, guarded_result,
  invoke,
}
use cfb27_lua_hook.NativeCall.Protection.{bit_and-guard_or_noaccess, bit_and-executable}

-- A committed page that is neither without access (1) nor a guard page (2 ^ 8), and has one of the four
-- flags that let it be executed (2 ^ 4 to 2 ^ 7).
abbrev pub MayExecute : PageInfo → Type 0
MayExecute info =
    (info.is_commit ≡ true)
    × (info.protect % 2 ≡ 0)
    × (info.protect / 2 ^ 8 % 2 ≡ 0)
    × (0 < info.protect / 2 ^ 4 % 2 ^ 4)

MayExecute-is_executable_page :
    (info : PageInfo) → (is_executable_page info ≡ true) ↔ MayExecute info
unfolding is_executable_page
MayExecute-is_executable_page info =
    let guard = bit_and-guard_or_noaccess info.protect in
    let executable = bit_and-executable info.protect in
    ((λ h. ground (arith, guard, executable)), (λ h. ground (arith, guard, executable)))

module _ {S : Type 0} (process : Process S) where
  -- The address of a call, not null, lies on a page found to be executable.
  abbrev pub IsTarget : ℕ → S → Type 0
  IsTarget address s =
      (0 < address) × (info : PageInfo) × (process.query address s ≡ some info) × MayExecute info

  IsTarget-is_executable_address :
      (address : ℕ) (s : S) → (is_executable_address process address s ≡ true) ↔ IsTarget address s
  unfolding is_executable_address
  IsTarget-is_executable_address address s = (found, goes)
    where
      found : is_executable_address process address s ≡ true → IsTarget address s
      found h = elim (Option-cases (process.query address s)) [
        | inl nothing ↦ absurd (ground arith)
        | inr (info, page) ↦
            (ground arith, info, page, (MayExecute-is_executable_page info).0 (ground arith))
      ]

      goes : IsTarget address s → is_executable_address process address s ≡ true
      goes (pos, info, page, may) = ground (arith, page, (MayExecute-is_executable_page info).1 may)

  -- At most eight arguments and a target that may be called.
  abbrev pub IsCall : ℕ → List Argument → S → Type 0
  IsCall address arguments s = (length arguments ≤ max_arguments) × IsTarget address s

  -- An answer and the state left with it, described by the call alone.
  abbrev pub Answers : ℕ → List Argument → S → Result × S → Type 0
  Answers address arguments s r =
      let called = process.dispatch address arguments s in
      ((r.0.status ≡ ok) ↔ (
        IsCall address arguments s
        × (value : ℕ) × (called.0 ≡ returned value)
        × (r.0.value ≡ value)))
      × ((r.0.status ≡ exception) ↔ (
          IsCall address arguments s
          × (code : ℕ) × (called.0 ≡ fault code)
          × (r.0.fault_code ≡ code)))
      × ((r.0.status ≡ invalid_target)
          ↔ ((length arguments ≤ max_arguments) × ¬ IsTarget address s))
      × ((r.0.status ≡ too_many_arguments) ↔ (max_arguments < length arguments))
      × (IsCall address arguments s → r.1 ≡ called.1)
      × (¬ IsCall address arguments s → r.1 ≡ s)

  guarded_result-Answers :
      (address : ℕ) (arguments : List Argument) (s : S) (o : Outcome) (s' : S)
      → IsCall address arguments s
      → process.dispatch address arguments s ≡ (o, s')
      → Answers address arguments s (guarded_result o, s')
  unfolding guarded_result
  guarded_result-Answers address arguments s (returned value) s' legal made = (
    ((λ _. (legal, value, ap (λ x. x.0) made, refl)), (λ _. refl)),
    ((λ h. absurd (ground arith)), (λ h. absurd (ground (arith, made, h.2)))),
    ((λ h. absurd (ground arith)), (λ h. absurd (h.1 legal.1))),
    ((λ h. absurd (ground arith)), (λ h. absurd (omega (arith, h, legal.0)))),
    (λ _. sym (ap (λ x. x.1) made)),
    (λ no. absurd (no legal)),
  )
  guarded_result-Answers address arguments s (fault code) s' legal made = (
    ((λ h. absurd (ground arith)), (λ h. absurd (ground (arith, made, h.2)))),
    ((λ _. (legal, code, ap (λ x. x.0) made, refl)), (λ _. refl)),
    ((λ h. absurd (ground arith)), (λ h. absurd (h.1 legal.1))),
    ((λ h. absurd (ground arith)), (λ h. absurd (omega (arith, h, legal.0)))),
    (λ _. sym (ap (λ x. x.1) made)),
    (λ no. absurd (no legal)),
  )

  -- `Invoke` answers `ok` exactly when a legal call returned, with its value, `exception` exactly when a
  -- legal call faulted, with its code, `too_many_arguments` exactly for more than eight arguments, and
  -- `invalid_target` exactly for at most eight at no legal target. A legal call leaves the state that the
  -- target leaves, anything else the state as it was.
  pub invoke-Answers :
      (address : ℕ) (arguments : List Argument) (s : S)
      → Answers address arguments s (invoke process address arguments s)
  unfolding invoke
  invoke-Answers address arguments s = elim (Bool-cases (ltb max_arguments (length arguments))) [
    | inl many ↦
        let over : max_arguments < length arguments = ground arith in
        let no : ¬ IsCall address arguments s = λ call. absurd (omega (arith, over, call.0)) in
        rw many (
          ((λ h. absurd (ground arith)), (λ h. absurd (no h.0))),
          ((λ h. absurd (ground arith)), (λ h. absurd (no h.0))),
          ((λ h. absurd (ground arith)), (λ h. absurd (omega (arith, over, h.0)))),
          ((λ _. over), (λ _. refl)),
          (λ call. absurd (no call)),
          (λ _. refl),
        )
    | inr few ↦ elim (Bool-cases (is_executable_address process address s)) [
      | inr other ↦
          let under : length arguments ≤ max_arguments = ground arith in
          let missing : ¬ IsTarget address s = λ target.
            absurd (ground (arith, other, (IsTarget-is_executable_address address s).1 target)) in
          rw (few, other)
            (
              ((λ h. absurd (ground arith)), (λ h. absurd (missing h.0.1))),
              ((λ h. absurd (ground arith)), (λ h. absurd (missing h.0.1))),
              ((λ _. (under, missing)), (λ _. refl)),
              ((λ h. absurd (ground arith)), (λ h. absurd (omega (arith, h, under)))),
              (λ call. absurd (missing call.1)),
              (λ _. refl),
            )
      | inl executable ↦
          let target = (IsTarget-is_executable_address address s).0 executable in
          let made = process.dispatch address arguments s in
          rw (few, executable)
            (guarded_result-Answers address arguments s made.0 made.1 (ground arith, target) refl)
    ]
  ]

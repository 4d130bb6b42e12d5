-- ===== src/NativeCall/Tests.antt =====
-- A call at a page that may be executed, and at one that may not.
use cfb27_lua_hook.Prelude.{
  ℕ, ◌+◌, ◌≡◌, refl, true, ◌&&◌, none, some, [], ◌∷◌, ltb, leb, if◌then◌else◌,
}
use cfb27_lua_hook.NativeCall.{
  word, Process, returned, is_executable_page, is_executable_address, invoke,
}
use cfb27_lua_hook.NativeCall.Calls.{Answers, invoke-Answers}

-- One page from 4096 on with the given protection; a call answers with how many were made before.
abbrev one_page : ℕ → Process ℕ
one_page protection = record {
  query = λ a s.
      if leb 4096 a && ltb a 8192
      then some (record {
        base = 4096;
        size = 4096;
        is_commit = true;
        is_private = true;
        protect = protection;
      })
      else none;
  copy = λ a n s. none;
  module_handle = λ s. 4096;
  dispatch = λ a args s. (returned s, s + 1);
}

executable_test : (invoke (one_page 0x20) 4100 (word 1 ∷ []) 7).1 ≡ 8
unfolding invoke is_executable_address is_executable_page
executable_test = refl

invoke-Answers_example :
    Answers (one_page 0x20) 4100 (word 1 ∷ []) 7 (invoke (one_page 0x20) 4100 (word 1 ∷ []) 7)
invoke-Answers_example = invoke-Answers (one_page 0x20) 4100 (word 1 ∷ []) 7

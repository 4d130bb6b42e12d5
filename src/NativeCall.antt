-- ===== src/NativeCall.antt =====
-- native/host/native_call.h and native_call.cpp: a call of a function in the game's module. The
-- operating system's page query and the call itself, which may fault, are the parameter `Process`.
pub mod Protection
pub mod Calls
mod Tests
use Prim.Native.Nat.{bit_and}
use cfb27_lua_hook.Prelude.{
  ℕ, Bool, false, ◌&&◌, not, Option, none, some, List, ltb, ◌==◌, if◌then◌else◌, length,
}

-- `MEMORY_BASIC_INFORMATION`, as far as it is read.
pub record PageInfo : Type 0 where
  pub base : ℕ
  pub size : ℕ
  pub is_commit : Bool
  pub is_private : Bool
  pub protect : ℕ

-- An argument word, or the address of a local that holds one.
pub data Argument : Type 0 where
  word cell : ℕ → Argument

pub data Outcome : Type 0 where
  returned : ℕ → Outcome
  fault : ℕ → Outcome

-- The process under the host, in a state that a call may change: `VirtualQuery`, a copy of bytes
-- under an exception guard, `GetModuleHandleW(nullptr)` and a call under an exception guard.
pub record Process (S : Type 0) : Type 0 where
  pub query : ℕ → S → Option PageInfo
  pub copy : ℕ → ℕ → S → Option (List ℕ)
  pub module_handle : S → ℕ
  pub dispatch : ℕ → List Argument → S → Outcome × S

pub data Status : Type 0 where
  ok too_many_arguments invalid_target exception : Status

pub record Result : Type 0 where
  pub status : Status
  pub value : ℕ
  pub fault_code : ℕ

abbrev pub max_arguments : ℕ
max_arguments = 8

abbrev pub page_guard_or_noaccess : ℕ
page_guard_or_noaccess = 0x101

-- PAGE_EXECUTE, and with reading, writing or copying on write.
unfoldable pub is_executable_page : PageInfo → Bool
is_executable_page info =
    info.is_commit
    && ((bit_and info.protect page_guard_or_noaccess == 0) && not (bit_and info.protect 0xF0 == 0))

unfoldable pub guarded_result : Outcome → Result
guarded_result (returned value) = record { status = ok; value = value; fault_code = 0 }
guarded_result (fault code) = record { status = exception; value = 0; fault_code = code }

module _ {S : Type 0} (process : Process S) where
  unfoldable pub is_executable_address : ℕ → S → Bool
  is_executable_address address s =
      if address == 0
      then false
      else elim (process.query address s) [ none ↦ false | some info ↦ is_executable_page info ]

  unfoldable pub invoke : ℕ → List Argument → S → Result × S
  invoke address arguments s =
      if ltb max_arguments (length arguments)
      then (record { status = too_many_arguments; value = 0; fault_code = 0 }, s)
      else if is_executable_address address s
      then (let called = process.dispatch address arguments s in
          (guarded_result called.0, called.1))
      else (record { status = invalid_target; value = 0; fault_code = 0 }, s)

-- ===== src/Reader/Region.antt =====
-- Regions of memory as native/host/memory_reader.cpp sees them. What the operating system does is the
-- parameter `Host`, whose state `S` each call may change, with all that other threads do meanwhile.
use Prim.Native.Nat.{bit_and}
use cfb27_lua_hook.Prelude.{
  ℕ, ◌+◌, ◌-◌, Bool, false, ◌&&◌, ◌||◌, not, Option, none, some, List, ltb, leb, ◌==◌,
  if◌then◌else◌,
}
use cfb27_lua_hook.Memory.Address.{uintptr_max}

-- `MEMORY_BASIC_INFORMATION`.
pub record MemoryInfo : Type 0 where
  pub base : ℕ
  pub size : ℕ
  pub is_commit : Bool
  pub is_private : Bool
  pub protect : ℕ
  pub allocation_base : ℕ
  pub allocation_protect : ℕ

-- `query` is `VirtualQuery`, `read` the bytes that `ReadProcessMemory` has copied or `none` where it
-- fails, `allocate` the address of a new mapping, `cancel` the request's `should_cancel`.
pub record Host (S : Type 0) : Type 0 where
  pub query : ℕ → S → Option MemoryInfo × S
  pub read : ℕ → ℕ → S → Option (List ℕ) × S
  pub allocate : ℕ → S → Option ℕ × S
  pub cancel : S → Bool × S
  pub minimum : ℕ
  pub maximum : ℕ

-- For addresses and for sizes alike, both of 64 bits.
unfoldable pub add_overflows : ℕ → ℕ → Bool
add_overflows left right = ltb (uintptr_max - left) right

unfoldable pub is_readable_protection : ℕ → Bool
is_readable_protection protection =
    let base = bit_and protection 0xFF in
    if not (bit_and protection 0x101 == 0)
    then false
    else ((base == 2)
        || ((base == 4) || ((base == 8) || ((base == 0x20) || ((base == 0x40) || (base == 0x80))))))

unfoldable pub is_eligible_private_readable_region : MemoryInfo → Bool
is_eligible_private_readable_region info =
    info.is_commit
    && (info.is_private && (not (info.size == 0) && is_readable_protection info.protect))

-- The range lies within the region.
unfoldable pub is_within : MemoryInfo → ℕ → ℕ → Bool
is_within info address size =
    is_eligible_private_readable_region info
    && (leb info.base address
        && (not (add_overflows info.base info.size)
            && (not (add_overflows address size) && leb (address + size) (info.base + info.size))))

unfoldable pub is_within_one_eligible_region : {S : Type 0} → Host S → ℕ → ℕ → S → Bool × S
is_within_one_eligible_region host address size s =
    let (found, s') = host.query address s in
    (elim found [ none ↦ false | some info ↦ is_within info address size ], s')

unfoldable pub overlaps_range : ℕ → ℕ → ℕ → ℕ → Bool
overlaps_range candidate candidate_length excluded excluded_length =
    if (excluded == 0) || (excluded_length == 0)
    then false
    else if add_overflows candidate candidate_length || add_overflows excluded excluded_length
    then false
    else ltb candidate (excluded + excluded_length) && ltb excluded (candidate + candidate_length)

abbrev pub max_safe_diagnostic_counter : ℕ
max_safe_diagnostic_counter = 9007199254740991

unfoldable pub saturating_increment : ℕ → ℕ
saturating_increment value = if ltb value max_safe_diagnostic_counter then value + 1 else value

unfoldable pub saturating_add : ℕ → ℕ → ℕ
saturating_add target value =
    if ltb (max_safe_diagnostic_counter - target) value
    then max_safe_diagnostic_counter
    else target + value

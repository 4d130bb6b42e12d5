-- ===== src/Telemetry/Payload.antt =====
-- The payloads that `ValidateTelemetryPayload` of native/host/telemetry.cpp accepts.
use cfb27_lua_hook.Prelude.{◌≤◌, ◌≡◌, ◌↔◌, inl, inr, none, arith, sum-cases}
use cfb27_lua_hook.Telemetry.{
  Json, max_serialized_bytes, validate_value, validate_telemetry_payload,
}
use cfb27_lua_hook.Telemetry.Legal.{text_size, IsLegal}
use cfb27_lua_hook.Telemetry.Sound.{sound}
use cfb27_lua_hook.Telemetry.Complete.{complete}

-- A payload is accepted exactly when it is legal from depth 1 on and its text without spaces has at most
-- 16 KiB.
pub validate_telemetry_payload_iff :
    (payload : Json)
    → (validate_telemetry_payload payload ≡ none)
      ↔ (IsLegal 1 payload × (text_size payload ≤ max_serialized_bytes))
unfolding validate_telemetry_payload
validate_telemetry_payload_iff payload = (accepted, accepts)
  where
    accepted :
        validate_telemetry_payload payload ≡ none
        → IsLegal 1 payload × (text_size payload ≤ max_serialized_bytes)
    accepted h = elim (sum-cases (validate_value payload 1 0)) [
      | inl (e, bad) ↦ absurd (ground arith)
      | inr (total, good) ↦
          let (legal, sum, small) = sound payload 1 0 total (omega arith) good in
          (legal, omega (arith, sum, small))
    ]

    accepts :
        IsLegal 1 payload × (text_size payload ≤ max_serialized_bytes)
        → validate_telemetry_payload payload ≡ none
    accepts h = let good = complete payload 1 0 h.0 (omega (arith, h.1)) in ground (arith, good)

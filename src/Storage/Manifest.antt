-- ===== src/Storage/Manifest.antt =====
-- `truncate_manifest` of backend/gg/runtime/storage.py: the patch of a result within a bound.
mod Examples
use Prim.Native.Nat.{◌/◌, max}
use Prim.Native.String.{len, ◌++◌}
use gg_agent_server.Prelude.{
  ℕ, ◌-◌, ◌≤◌, String, ◌≡◌, refl, Bool, true, false, ◌||◌, Option, none, some, leb, map_option,
  arith, Bool-cases, inl, inr, if◌then◌else◌,
}
use text.Mathlib.TextPositions.{len-append}
use gg_agent_server.Sdk.Domain.{EventCodec}
use gg_agent_server.Sdk.Execution.{TaskResultManifest}
use gg_agent_server.Storage.Truncation.{truncation_suffix, truncate_text}

module _ (codec : EventCodec) where
  unfoldable pub truncate_manifest : TaskResultManifest → ℕ → TaskResultManifest × Bool
  truncate_manifest manifest max_bytes = elim (manifest.patch) [
    | none ↦ (
      record manifest { patch = none; patch_truncated = manifest.patch_truncated || false },
      false,
    )
    | some patch ↦
        let (shorter, cut) = truncate_text codec patch (max 4096 (max_bytes / 2)) in
        (record manifest { patch = some shorter; patch_truncated = cut || cut }, cut)
  ]

  -- A text that is cut to a limit of 64 bytes or more is within the limit.
  truncate_text-fits :
      (s : String) (limit : ℕ) → 64 ≤ limit → len (truncate_text codec s limit).0 ≤ limit
  unfolding truncate_text
  truncate_text-fits s limit h = elim (Bool-cases (leb (len s) limit)) [
    | inl e ↦ rw (e, truncate_text) (ground (arith, e))
    | inr e ↦
        let kept = codec.prefix_fits s (limit - 64) in
        let total = len-append (codec.prefix s (limit - 64)) truncation_suffix in
        let suffix_len : len truncation_suffix ≡ 30 = refl in
        rw (e, truncate_text) (rw (total, suffix_len) (omega arith))
  ]

  -- A text that is not cut stays as it is.
  truncate_text_uncut :
      (s : String) (limit : ℕ)
      → (truncate_text codec s limit).1 ≡ false
      → (truncate_text codec s limit).0 ≡ s
  unfolding truncate_text
  truncate_text_uncut s limit h = elim (Bool-cases (leb (len s) limit)) [
    | inl e ↦ rw (e, truncate_text) refl
    | inr e ↦ cc (rw (e, truncate_text) at h)
  ]

  -- The patch of a manifest that has one comes out within the larger of 4096 bytes and half the bound,
  -- and unchanged where no cut is reported. The flag `patch_truncated` comes out as what is reported of
  -- this cut, whatever it was before.
  pub truncate_manifest-fits :
      (manifest : TaskResultManifest) (max_bytes : ℕ) {patch : String}
      → manifest.patch ≡ some patch
      → (shorter : String) × ((truncate_manifest manifest max_bytes).0.patch ≡ some shorter)
        × (len shorter ≤ max 4096 (max_bytes / 2))
        × ((truncate_manifest manifest max_bytes).1 ≡ false → shorter ≡ patch)
        × ((truncate_manifest manifest max_bytes).0.patch_truncated
            ≡ (truncate_manifest manifest max_bytes).1)
  unfolding truncate_manifest
  truncate_manifest-fits manifest max_bytes {patch} e =
      let limit = max 4096 (max_bytes / 2) in
      (
        (truncate_text codec patch limit).0,
        rw (truncate_manifest, e) refl,
        truncate_text-fits patch limit (omega arith),
        λ h. truncate_text_uncut patch limit (rw (truncate_manifest, e) at h),
        rw (truncate_manifest, e) (ground (arith)),
      )

-- ===== src/Net/Region/Protocol/Params.antt =====
-- net/region/protocol.rs: the configuration that travels in a region's greeting, as the five
-- lengths and rates that its builder took and a digest.
use umwelt_rs.Base.{ℕ, ◌≡◌, ◌==◌, ==_iff, if◌then◌else◌, refl, ap, ◌∙◌, arith}
use umwelt_rs.Base.Int.{ℤ, pos, negsuc, ◌*ℤ◌}
use umwelt_rs.Base.Result.{Result, ok, err}
use umwelt_rs.Fixed.{from_meters, floor_meters, shr_ℤ}
use umwelt_rs.Config.{
  ConfigError, WorldConfig, build, config_of, protocol_hash, region_size_m, vertical_extent_m,
  horizontal_view_radius_m, max_horizontal_speed_m_per_sec, set_tick_hz,
}
use umwelt_rs.Config.Valid.{IsValid, authored, build-IsValid, build-fields}
use umwelt_rs.Net.Error.{NetError, from_config, config_mismatch}
use umwelt_rs.Net.Region.Protocol.{WorldParams, from_config_params, to_config}

-- A length that was given in meters, perhaps past the range of an `i32`, is still whole meters.
from_meters-floor_meters : (m : ℤ) → from_meters (floor_meters (from_meters m)) ≡ from_meters m
unfolding from_meters floor_meters shr_ℤ ◌*ℤ◌
from_meters-floor_meters (pos m) = ground arith
from_meters-floor_meters (negsuc m) = ground arith

-- The last step of `to_config`.
check_digest : (p : WorldParams) (r : Result ConfigError WorldConfig) → Result NetError WorldConfig
check_digest p r = elim (from_config r) [
  | err e ↦ err e
  | ok cfg ↦
      if protocol_hash cfg == p.protocol_hash
      then ok cfg
      else err (config_mismatch (protocol_hash cfg) p.protocol_hash)
]

check_digest-ok :
    (p : WorldParams) (r : Result ConfigError WorldConfig) (cfg : WorldConfig)
    → check_digest p r ≡ ok cfg
    → (r ≡ ok cfg) × (protocol_hash cfg ≡ p.protocol_hash)
unfolding check_digest
check_digest-ok p (err e) cfg q = cc
check_digest-ok p (ok c) cfg q = ground arith

-- Parameters are turned into a configuration only if it is valid and its digest is the one sent.
pub to_config-IsValid :
    (p : WorldParams) (cfg : WorldConfig)
    → to_config p ≡ ok cfg
    → IsValid cfg × (protocol_hash cfg ≡ p.protocol_hash)
unfolding to_config check_digest region_size_m vertical_extent_m horizontal_view_radius_m
    max_horizontal_speed_m_per_sec set_tick_hz
to_config-IsValid p cfg e =
    let (built, digest) =
      check_digest-ok p
        (build (
          authored p.region_size_m p.vertical_extent_m p.horizontal_view_radius_m
            p.max_horizontal_speed_m_per_sec p.tick_hz))
        cfg e in
    (
      build-IsValid p.region_size_m p.vertical_extent_m p.horizontal_view_radius_m
          p.max_horizontal_speed_m_per_sec p.tick_hz built,
      digest,
    )

accepts :
    (p : WorldParams) (r : Result ConfigError WorldConfig) (cfg : WorldConfig)
    → r ≡ ok cfg
    → protocol_hash cfg ≡ p.protocol_hash
    → check_digest p r ≡ ok cfg
unfolding check_digest
accepts p r cfg e h = rw (e, h, (==_iff p.protocol_hash p.protocol_hash).1 refl) refl

refill :
    (r v h s : ℤ) (hz : ℕ) (cfg : WorldConfig)
    → cfg ≡ config_of (from_meters r) (from_meters v) (from_meters h) (from_meters s) hz
    → authored
        (floor_meters cfg.region_size)
        (floor_meters cfg.vertical_extent)
        (floor_meters cfg.horizontal_view_radius)
        (floor_meters cfg.max_horizontal_speed)
        cfg.tick_hz
      ≡ authored r v h s hz
unfolding region_size_m vertical_extent_m horizontal_view_radius_m max_horizontal_speed_m_per_sec
    set_tick_hz config_of
refill r v h s hz cfg q =
    rw
      (
        ap (λ (c : WorldConfig). c.region_size) q,
        ap (λ (c : WorldConfig). c.vertical_extent) q,
        ap (λ (c : WorldConfig). c.horizontal_view_radius) q,
        ap (λ (c : WorldConfig). c.max_horizontal_speed) q,
        ap (λ (c : WorldConfig). c.tick_hz) q,
        from_meters-floor_meters r,
        from_meters-floor_meters v,
        from_meters-floor_meters h,
        from_meters-floor_meters s,
      )
      refl

-- A configuration that the builder makes from whole meters is rebuilt, with its digest accepted,
-- from the parameters that a region sends of it.
pub to_config-from_config :
    (region vertical radius speed : ℤ) (hz : ℕ) (cfg : WorldConfig)
    → build (authored region vertical radius speed hz) ≡ ok cfg
    → to_config (from_config_params cfg) ≡ ok cfg
unfolding to_config from_config_params check_digest
to_config-from_config r v h s hz cfg e =
    accepts (from_config_params cfg) _ cfg
      (ap build (refill r v h s hz cfg (build-fields r v h s hz cfg e)) ∙ e) refl

-- ===== src/Config.antt =====
-- src/network/episub/config.rs: the configuration and the sizes that it determines. A logarithm is taken
-- exactly, on whole numbers: the source rounds `log2 n + c` in floating point. Durations are
-- milliseconds.
pub mod Sizes
mod Tests
use irn.Base.{ℕ, zero, suc, ◌+◌, ◌*◌, ◌/◌, String, Bool, true, ltb, leb, nat_eq, if◌then◌else◌}
use irn.Host.{sample_unit}
use irn.Rpc.{PeerId}

pub record Config : Type 0 where
  pub network_size : ℕ
  pub active_view_factor : ℕ
  pub passive_view_factor : ℕ
  pub max_transmit_size : ℕ
  pub shuffle_interval : ℕ
  pub shuffle_probability : ℕ
  pub lazy_push_window : ℕ
  pub history_window : ℕ
  pub tick_frequency : ℕ
  pub optimize_sender_tree : Bool
  pub hop_optimization_factor : ℕ
  pub enable_compression : Bool
  pub compression_level : ℕ
  pub authorizer : String → PeerId → Bool

-- The halvings that take n to 1: the logarithm, rounded down, if the fuel is at least n.
unfoldable pub log2_loop : ℕ → ℕ → ℕ
log2_loop zero n = 0
log2_loop (suc fuel) n = let rest = suc (log2_loop fuel (n / 2)) in if ltb n 2 then 0 else rest

unfoldable pub log2 : ℕ → ℕ
log2 n = log2_loop n n

-- `log2 n` rounded to the nearest number is half of `log2 (2 * n * n)`, rounded down. The logarithm
-- of 0 is minus infinity, which a cast to `usize` takes to 0, whatever is added to it.
unfoldable pub max_active_view_size : Config → ℕ
max_active_view_size c =
    if nat_eq c.network_size 0
    then 0
    else log2 (2 * (c.network_size * c.network_size)) / 2 + c.active_view_factor

abbrev clamp : ℕ → ℕ → ℕ → ℕ
clamp lo hi x = if ltb x lo then lo else if ltb hi x then hi else x

-- `max(1)` of half the active view.
unfoldable pub min_active_view_size : Config → ℕ
min_active_view_size c = let half = max_active_view_size c / 2 in if leb half 1 then 1 else half

unfoldable pub max_passive_view_size : Config → ℕ
max_passive_view_size c = max_active_view_size c * c.passive_view_factor

unfoldable pub active_walk_length : Config → ℕ
active_walk_length c = clamp 2 6 (log2 c.network_size)

unfoldable pub shuffle_max_size : Config → ℕ
shuffle_max_size c = max_active_view_size c * 2

-- `Config::default`.
abbrev pub default_config : Config
default_config = record {
  network_size = 1000;
  active_view_factor = 1;
  passive_view_factor = 6;
  enable_compression = true;
  compression_level = 0;
  shuffle_probability = sample_unit;
  max_transmit_size = 1_024_000;
  shuffle_interval = 60_000;
  lazy_push_window = 2000;
  history_window = 30_000;
  tick_frequency = 200;
  hop_optimization_factor = 4;
  optimize_sender_tree = true;
  authorizer = λ topic peer. true;
}

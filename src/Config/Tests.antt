-- ===== src/Config/Tests.antt =====
-- The sizes on concrete configurations.
use irn.Base.{◌*◌, ◌^◌, ◌≤◌, ◌<◌, ◌≡◌, refl, arith}
use irn.Config.{log2_loop, log2, max_active_view_size, default_config}
use irn.Config.Sizes

default_sizes : max_active_view_size default_config ≡ 11
unfolding max_active_view_size log2 log2_loop
default_sizes = refl

max_active_view_size-nearest_example : (4 ^ 10 ≤ 2 * (1000 * 1000)) × (2 * (1000 * 1000) < 4 ^ 11)
unfolding max_active_view_size log2 log2_loop
max_active_view_size-nearest_example =
    Sizes.max_active_view_size-nearest default_config (omega arith)

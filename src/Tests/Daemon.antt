-- ===== src/Tests/Daemon.antt =====
-- The settings, written and read.
use sshos.Base.{◌≡◌, refl, Bytes, arith}
use sshos.Base.Text.{codes, strip_front, strip_back}
use sshos.Daemon.Config.{parse_config, render_config}
use sshos.Daemon.Config.RoundTrip.{IsPath, parse_config-render_config}

abbrev home : Bytes
home = codes "~/my work=x"

home-IsPath : IsPath home
unfolding strip_front strip_back
home-IsPath = record { some_byte = omega arith; one_line = refl; front = refl; back = refl }

parse_config-render_config_example :
    parse_config (render_config (record { start_dir = home })) ≡ record { start_dir = home }
parse_config-render_config_example = parse_config-render_config home home-IsPath

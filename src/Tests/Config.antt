-- ===== src/Tests/Config.antt =====
-- The configuration builders at a concrete configuration.
use delp.Prelude.{◌≡◌, ◌↔◌, arith}
use delp.Error.{ok}
use delp.Config.{gf2_8, cauchy, evict_oldest, EncoderConfigBuilder, built, build}
use delp.Config.Laws.{IsValid, build_iff}

abbrev small : EncoderConfigBuilder
small = record {
  symbol_size = 512;
  window_capacity = 64;
  field = gf2_8;
  fec_numer = 1;
  fec_denom = 4;
  backpressure = evict_oldest;
  matrix_strategy = cauchy;
}

build_iff_example :
    (build small ≡ ok (built small)) ↔ ((built small ≡ built small) × IsValid (built small))
build_iff_example = build_iff small (built small)

small-IsValid : IsValid (built small)
small-IsValid = record {
  symbol_pos = omega arith;
  symbol_le = omega arith;
  window_pos = omega arith;
  denom_pos = omega arith;
  fits = λ _. omega arith;
}

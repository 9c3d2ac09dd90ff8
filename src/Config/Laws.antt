-- ===== src/Config/Laws.antt =====
-- What a validated configuration guarantees.
use delp.Prelude.{◌≤◌, ◌<◌, ◌≡◌, ◌↔◌, sym, ap, ◌∙◌, refl, arith}
use mathlib.Core.Path.{subst}
use delp.Error.{ok}
use delp.Config.{
  cauchy, EncoderConfig, EncoderConfigBuilder, cauchy_max, built, check_cauchy, build,
  DecoderConfig, decoder_build, from_encoder,
}

pub record IsValid (c : EncoderConfig) : Type 0 where
  pub symbol_pos : 0 < c.symbol_size
  pub symbol_le : c.symbol_size ≤ 65_535
  pub window_pos : 0 < c.window_capacity
  pub denom_pos : 0 < c.fec_denom
  pub fits : c.matrix_strategy ≡ cauchy → c.window_capacity ≤ cauchy_max c.field

check_cauchy_sound :
    (b : EncoderConfigBuilder) (c : EncoderConfig)
    → check_cauchy b ≡ ok c
    → (c ≡ built b) × (b.matrix_strategy ≡ cauchy → b.window_capacity ≤ cauchy_max b.field)
unfolding check_cauchy
check_cauchy_sound b c h = (ground arith, λ e. ground arith)

check_cauchy_complete :
    (b : EncoderConfigBuilder)
    → (b.matrix_strategy ≡ cauchy → b.window_capacity ≤ cauchy_max b.field)
    → check_cauchy b ≡ ok (built b)
unfolding check_cauchy
check_cauchy_complete b fits = ground arith

build_sound :
    (b : EncoderConfigBuilder) (c : EncoderConfig) → build b ≡ ok c → (c ≡ built b) × IsValid c
unfolding build
build_sound b c h =
    let last : check_cauchy b ≡ ok c = ground arith in
    let (e, fits) = check_cauchy_sound b c last in
    (
      e,
      rw e (record {
        symbol_pos = ground arith;
        symbol_le = ground arith;
        window_pos = ground arith;
        denom_pos = ground arith;
        fits = fits;
      }),
    )

build_complete : (b : EncoderConfigBuilder) → IsValid (built b) → build b ≡ ok (built b)
unfolding build
build_complete b v = ground (arith, check_cauchy_complete b v.fits)

-- `build` succeeds exactly when the symbol size is in 1..=65535, the window capacity and the FEC
-- denominator are not zero and a Cauchy window is within its field's maximum, and then it returns
-- the builder's fields unchanged.
pub build_iff :
    (b : EncoderConfigBuilder) (c : EncoderConfig) → (build b ≡ ok c) ↔ ((c ≡ built b) × IsValid c)
build_iff b c = (build_sound b c, λ h. build_complete b (subst IsValid h.0 h.1) ∙ ap ok (sym h.0))

-- The decoder configuration derived from a valid encoder configuration builds, with the encoder's
-- symbol size and field.
pub from_encoder-decoder_build :
    (c : EncoderConfig)
    → IsValid c
    → (d : DecoderConfig) × (decoder_build (from_encoder c) ≡ ok d)
      × (d.symbol_size ≡ c.symbol_size)
      × (d.field ≡ c.field)
unfolding from_encoder decoder_build
from_encoder-decoder_build c v = (
  record {
    symbol_size = c.symbol_size;
    field = c.field;
    max_matrix_rows = 512;
    feedback_every = 16;
  },
  ground arith,
  refl,
  refl,
)

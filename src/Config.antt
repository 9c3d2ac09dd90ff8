-- ===== src/Config.antt =====
-- src/config.rs: the configurations and their builders.
pub mod Laws
use delp.Prelude.{ℕ, ◌<◌, Bool, true, false, ◌||◌, ltb, ◌==◌, if◌then◌else◌}
use delp.Error.{Result, ok, err, invalid_symbol_size, invalid_window_capacity, invalid_fec_denom}

pub data Field : Type 0 where
  gf2_8 gf2_4 : Field

pub data MatrixStrategy : Type 0 where
  vandermonde cauchy : MatrixStrategy

pub data BackpressureMode : Type 0 where
  reject evict_oldest : BackpressureMode

pub record EncoderConfig : Type 0 where
  pub symbol_size : ℕ
  pub window_capacity : ℕ
  pub field : Field
  pub fec_numer : ℕ
  pub fec_denom : ℕ
  pub backpressure : BackpressureMode
  pub matrix_strategy : MatrixStrategy

-- The builder has the same fields, not yet validated.
pub record EncoderConfigBuilder : Type 0 where
  pub symbol_size : ℕ
  pub window_capacity : ℕ
  pub field : Field
  pub fec_numer : ℕ
  pub fec_denom : ℕ
  pub backpressure : BackpressureMode
  pub matrix_strategy : MatrixStrategy

unfoldable pub builder : ℕ → EncoderConfigBuilder
builder symbol_size = record {
  symbol_size = symbol_size;
  window_capacity = 256;
  field = gf2_8;
  fec_numer = 1;
  fec_denom = 4;
  backpressure = reject;
  matrix_strategy = vandermonde;
}

unfoldable pub with_window_capacity : EncoderConfigBuilder → ℕ → EncoderConfigBuilder
with_window_capacity b n = record b { window_capacity = n }

unfoldable pub with_field : EncoderConfigBuilder → Field → EncoderConfigBuilder
with_field b f = record b { field = f }

unfoldable pub with_fec_rate : EncoderConfigBuilder → ℕ → ℕ → EncoderConfigBuilder
with_fec_rate b numer denom = record b { fec_numer = numer; fec_denom = denom }

unfoldable pub with_backpressure : EncoderConfigBuilder → BackpressureMode → EncoderConfigBuilder
with_backpressure b mode = record b { backpressure = mode }

unfoldable pub with_matrix_strategy : EncoderConfigBuilder → MatrixStrategy → EncoderConfigBuilder
with_matrix_strategy b s = record b { matrix_strategy = s }

abbrev pub cauchy_max : Field → ℕ
cauchy_max gf2_8 = 128
cauchy_max gf2_4 = 7

abbrev is_cauchy : MatrixStrategy → Bool
is_cauchy cauchy = true
is_cauchy vandermonde = false

-- The value that `build` returns once every check has passed.
abbrev pub built : EncoderConfigBuilder → EncoderConfig
built b = record {
  symbol_size = b.symbol_size;
  window_capacity = b.window_capacity;
  field = b.field;
  fec_numer = b.fec_numer;
  fec_denom = b.fec_denom;
  backpressure = b.backpressure;
  matrix_strategy = b.matrix_strategy;
}

-- The last check of `build`, for the Cauchy strategy alone.
unfoldable pub check_cauchy : EncoderConfigBuilder → Result EncoderConfig
check_cauchy b =
    if is_cauchy b.matrix_strategy
    then (if ltb (cauchy_max b.field) b.window_capacity
        then err invalid_window_capacity
        else ok (built b))
    else ok (built b)

unfoldable pub build : EncoderConfigBuilder → Result EncoderConfig
unfolding check_cauchy
build b =
    if b.symbol_size == 0 || ltb 65_535 b.symbol_size
    then err (invalid_symbol_size b.symbol_size)
    else if b.window_capacity == 0
    then err invalid_window_capacity
    else if b.fec_denom == 0
    then err invalid_fec_denom
    else check_cauchy b

pub record DecoderConfig : Type 0 where
  pub symbol_size : ℕ
  pub field : Field
  pub max_matrix_rows : ℕ
  pub feedback_every : ℕ

pub record DecoderConfigBuilder : Type 0 where
  pub symbol_size : ℕ
  pub field : Field
  pub max_matrix_rows : ℕ
  pub feedback_every : ℕ

unfoldable pub decoder_builder : ℕ → DecoderConfigBuilder
decoder_builder symbol_size = record {
  symbol_size = symbol_size;
  field = gf2_8;
  max_matrix_rows = 512;
  feedback_every = 16;
}

unfoldable pub with_decoder_field : DecoderConfigBuilder → Field → DecoderConfigBuilder
with_decoder_field b f = record b { field = f }

unfoldable pub with_max_matrix_rows : DecoderConfigBuilder → ℕ → DecoderConfigBuilder
with_max_matrix_rows b n = record b { max_matrix_rows = n }

unfoldable pub with_feedback_every : DecoderConfigBuilder → ℕ → DecoderConfigBuilder
with_feedback_every b n = record b { feedback_every = n }

unfoldable pub decoder_build : DecoderConfigBuilder → Result DecoderConfig
decoder_build b =
    if b.symbol_size == 0 || ltb 65_535 b.symbol_size
    then err (invalid_symbol_size b.symbol_size)
    else ok (record {
      symbol_size = b.symbol_size;
      field = b.field;
      max_matrix_rows = b.max_matrix_rows;
      feedback_every = b.feedback_every;
    })

-- `DecoderConfigBuilder::from(&EncoderConfig)`.
unfoldable pub from_encoder : EncoderConfig → DecoderConfigBuilder
unfolding decoder_builder with_decoder_field
from_encoder enc = with_decoder_field (decoder_builder enc.symbol_size) enc.field

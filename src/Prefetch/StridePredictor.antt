-- ===== src/Prefetch/StridePredictor.antt =====
-- src/core/stride_predictor.h and src/core/stride_predictor.cpp. A stride is an `int32_t`, kept as
-- its bit pattern, a number below 2 ^ 32; addresses are `uint32_t`.
use cache_simulator.Prelude.{
  ℕ, ◌+◌, ◌-◌, ◌%◌, Bool, true, false, List, ◌&&◌, ◌==◌, leb, length, get_or, set, replicate, min,
  if◌then◌else◌, u32_mod,
}

pub record Entry : Type 0 where
  pub last_address : ℕ
  pub stride : ℕ
  pub last_stride : ℕ
  pub confidence : ℕ
  pub valid : Bool

abbrev pub empty_entry : Entry
empty_entry = record {
  last_address = 0;
  stride = 0;
  last_stride = 0;
  confidence = 0;
  valid = false;
}

pub record StridePredictor : Type 0 where
  pub table : List Entry
  pub correct_predictions : ℕ
  pub total_predictions : ℕ
  pub stride_histogram : ℕ → ℕ

unfoldable pub create : ℕ → StridePredictor
create size = record {
  table = replicate size empty_entry;
  correct_predictions = 0;
  total_predictions = 0;
  stride_histogram = λ s. 0;
}

-- `int32_t currentStride = address - entry.lastAddress`
abbrev pub stride_between : ℕ → ℕ → ℕ
stride_between from to = (to + u32_mod - from) % u32_mod

-- The entry of a valid slot after an access: `std::min` and `std::max` keep the confidence in 0 .. 3.
unfoldable pub train : Entry → ℕ → Entry
train e address =
    let current = stride_between e.last_address address in
    if current == e.stride
    then record e { confidence = min (e.confidence + 1) 3; last_address = address }
    else record e {
      last_stride = e.stride;
      stride = current;
      confidence = e.confidence - 1;
      last_address = address;
    }

unfoldable pub slot : StridePredictor → ℕ → ℕ
slot p address = address % length p.table

unfoldable pub update_valid : StridePredictor → ℕ → ℕ → Entry → StridePredictor
unfolding train
update_valid p index address e =
    let current = stride_between e.last_address address in
    record {
      table = set p.table index (train e address);
      correct_predictions =
          if current == e.stride then p.correct_predictions + 1 else p.correct_predictions;
      total_predictions = p.total_predictions + 1;
      stride_histogram =
          λ s. if s == current then p.stride_histogram s + 1 else p.stride_histogram s;
    }

unfoldable pub update : StridePredictor → ℕ → StridePredictor
unfolding slot update_valid
update p address =
    let index = slot p address in
    let e = get_or p.table index empty_entry in
    if e.valid then update_valid p index address e else record p {
      table =
          set p.table index
            (record e { valid = true; stride = 0; confidence = 0; last_address = address });
    }

unfoldable pub get_stride : StridePredictor → ℕ → ℕ
unfolding slot
get_stride p address =
    let e = get_or p.table (slot p address) empty_entry in
    if e.valid && leb 2 e.confidence then e.stride else 0

unfoldable pub reset_stats : StridePredictor → StridePredictor
reset_stats p = record p {
  correct_predictions = 0;
  total_predictions = 0;
  stride_histogram = λ s. 0;
}

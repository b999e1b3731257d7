-- ===== src/Message.antt =====
-- The message of the input (message.rs). A time is its Unix time in nanoseconds: the offset that an
-- `OffsetDateTime` also carries has no effect on what the bridge does with it.
use iec104bridge.Base.{ℕ, Bool, Option}
use iec104bridge.Base.Int.{ℤ}
use iec104bridge.Number.{F64}

pub data DataValue : Type 0 where
  bool : Bool → DataValue
  number : F64 → DataValue

pub data DataType : Type 0 where
  float scaled normalized single_point double_point : DataType

pub data QualityField : Type 0 where
  good invalid not_topical substituted blocked overflow : QualityField

pub data CotField : Type 0 where
  spontaneous periodic background_scan interrogated return_info_remote return_info_local : CotField

pub record Iec104Message : Type 0 where
  pub ioa : ℕ
  pub value : DataValue
  pub data_type : Option DataType
  pub ca : Option ℕ
  pub quality : QualityField
  pub cot : CotField
  pub timestamp : Option ℤ

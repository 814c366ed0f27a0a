-- ===== src/Metadata/Types.antt =====
-- The value types of mmids-core/src/workflows/metadata/mod.rs.
use mathlib.Core.Bool.{decide, decide_iff}
use mmids_core.Common.{ℕ, ◌<◌, ◌≡◌, ◌↔◌, Bool, List, Eq, ◌^◌}
use mmids_core.Common.Int.{ℤ, Fits}

pub data MetadataValueType : Type 0 where
  u8 u16 u32 u64 i8 i16 i32 i64 bytes bool : MetadataValueType

pub data MetadataValue : Type 0 where
  u8 u16 u32 u64 : ℕ → MetadataValue
  i8 i16 i32 i64 : ℤ → MetadataValue
  bytes : List ℕ → MetadataValue
  bool : Bool → MetadataValue

unfoldable pub MetadataValueType-discrete : Discrete MetadataValueType
MetadataValueType-discrete = hlevel

abbrev pub type_beq : MetadataValueType → MetadataValueType → Bool
type_beq s t = decide (MetadataValueType-discrete s t)

pub type_beq_iff : (s t : MetadataValueType) → (type_beq s t ≡ Bool.true) ↔ (s ≡ t)
type_beq_iff s t = decide_iff (MetadataValueType-discrete s t)

instance abbrev pub value_type_eq : Eq MetadataValueType
value_type_eq = record { beq = type_beq; beq_iff = type_beq_iff }

-- The type that a value belongs to.
abbrev pub type_of : MetadataValue → MetadataValueType
type_of (MetadataValue.u8 n) = MetadataValueType.u8
type_of (MetadataValue.u16 n) = MetadataValueType.u16
type_of (MetadataValue.u32 n) = MetadataValueType.u32
type_of (MetadataValue.u64 n) = MetadataValueType.u64
type_of (MetadataValue.i8 z) = MetadataValueType.i8
type_of (MetadataValue.i16 z) = MetadataValueType.i16
type_of (MetadataValue.i32 z) = MetadataValueType.i32
type_of (MetadataValue.i64 z) = MetadataValueType.i64
type_of (MetadataValue.bytes b) = MetadataValueType.bytes
type_of (MetadataValue.bool b) = MetadataValueType.bool

-- What the Rust type of the payload guarantees: the number fits its width.
abbrev pub InRange : MetadataValue → Type 0
InRange (MetadataValue.u8 n) = n < 256 ^ 1
InRange (MetadataValue.u16 n) = n < 256 ^ 2
InRange (MetadataValue.u32 n) = n < 256 ^ 4
InRange (MetadataValue.u64 n) = n < 256 ^ 8
InRange (MetadataValue.i8 z) = Fits (256 ^ 1) z
InRange (MetadataValue.i16 z) = Fits (256 ^ 2) z
InRange (MetadataValue.i32 z) = Fits (256 ^ 4) z
InRange (MetadataValue.i64 z) = Fits (256 ^ 8) z
InRange (MetadataValue.bytes b) = Unit
InRange (MetadataValue.bool b) = Unit

-- ===== src/Metadata/Model.antt =====
-- packages/wmfs/wmfs/protocol/metadata.py: the metadata of an operation. A name is the list of its
-- code points; the fixed words (a kind, an access, a dtype) are texts that are only compared.
use Prim.Native.String.{String}
use wmfs.Common.{ℕ, Bool, Option, List}
use wmfs.Common.Int.{ℤ}
use wmfs.Common.Utf8.{Text}

-- A Python value given for a scalar, or its default. A float is its 64 bits.
pub data Scalar : Type 0 where
  boolean : Bool → Scalar
  float64 : ℕ → Scalar
  int64 : ℤ → Scalar
  text : Text → Scalar
  other : Scalar

pub record TensorParameter : Type 0 where
  pub name : Text
  pub access : String
  pub dtype_variable : Option Text
  pub dtypes : List String

pub record ScalarParameter : Type 0 where
  pub name : Text
  pub kind : String
  pub required : Bool
  pub default : Option Scalar
  pub enum_name : Option Text
  pub enum_values : List Text

pub record DtypeVariable : Type 0 where
  pub name : Text
  pub dtypes : List String

-- The last constructor stands for every other kind.
mutual
  pub data DimensionExpression : Type 0 where
    constant : ℤ → DimensionExpression
    input_axis : ℤ → ℤ → DimensionExpression
    minimum : Dimensions → DimensionExpression
    select : ℤ → DimensionExpression → DimensionExpression → DimensionExpression
    unknown_dimension : DimensionExpression

  pub data Dimensions : Type 0 where
    none_left : Dimensions
    dimension : DimensionExpression → Dimensions → Dimensions

pub data DtypeExpression : Type 0 where
  fixed : String → DtypeExpression
  input : ℤ → DtypeExpression
  variable : Text → DtypeExpression
  promote_tensor_scalar : ℤ → ℤ → DtypeExpression
  unknown_dtype : DtypeExpression

pub data ShapeExpression : Type 0 where
  same_shape_as_input : ℤ → ShapeExpression
  dimensions : Dimensions → ShapeExpression
  unknown_shape : ShapeExpression

pub record KnownOutput : Type 0 where
  pub shape : ShapeExpression
  pub dtype : DtypeExpression

-- A plan without a known output is dynamic: the worker plans it.
pub record OutputPlan : Type 0 where
  pub name : Text
  pub known : Option KnownOutput

pub record Vjp : Type 0 where
  pub operation_id : ℤ
  pub saved_inputs : List ℤ
  pub saved_outputs : List ℤ
  pub output_cotangents : List ℤ
  pub input_gradients : List ℤ
  pub scalar_parameters : List ℤ

pub record OperationMetadata : Type 0 where
  pub name : Text
  pub tensor_inputs : List TensorParameter
  pub tensor_outputs : List TensorParameter
  pub scalar_parameters : List ScalarParameter
  pub operation_id : ℤ
  pub output_plans : List OutputPlan
  pub vjp : Option Vjp
  pub internal : Bool
  pub dtype_variables : List DtypeVariable

pub record PluginMetadata : Type 0 where
  pub name : Text
  pub version : Text
  pub protocol_version : ℤ
  pub operations : List OperationMetadata
  pub fingerprint : ℕ
  pub metadata_version : ℤ

-- ===== src/Invocation/Tests.antt =====
-- A call of the operation `clip` with a tensor, and of one whose output the worker plans.
use Prim.Native.String.{String}
use wmfs.Common.{ℕ, ◌⊎◌, true, false, Option, some, none, List, [], ◌∷◌, ◌≡◌, refl, ok, err}
use wmfs.Common.Dict
use wmfs.Common.Dict.{Dict}
use wmfs.Common.Int.{ℤ, pos, same_int}
use wmfs.Common.Text.{same_text}
use wmfs.Metadata.Model.{Scalar, boolean, int64, OperationMetadata}
use wmfs.Metadata.Tests.{clip, clip_valid, plan_y}
use wmfs.Outputs.Model.{
  Descriptor, item, axis_of, bound_dtype, evaluate_dimension, evaluate_shape, evaluate_dtype,
  evaluate_known, evaluate_plan, evaluate_outputs, is_bad_shape, complete_all, complete_outputs,
  unknown_output,
}
use wmfs.Outputs.Safety.{IsSafe}
use wmfs.Outputs.Reuse.{
  Tensor, single, out_tensors, same_shape, accept_managed, managed_of, take_output, take_outputs,
  bind_reusable_outputs,
}
use wmfs.Outputs.Model.{aliased}
use wmfs.Invocation.Arguments.{
  Argument, tensor_argument, value_argument, bind_scalars, bind_all, coerce_scalar, coerce_kind,
  python_parameter_name, wrong_scalar_type,
}
use wmfs.Invocation.Dtypes.{validate_tensor_dtypes, check_dtypes, check_dtype}
use wmfs.Invocation.Model.{
  bind_invocation, BoundInvocation, reuse_outputs, plan_outputs, OutputPlanned,
}
use wmfs.Invocation.Planning.{evaluate_outputs-bind_invocation}
use wmfs.Invocation.Outputs.{IsPlanned, plan_outputs-IsPlanned}
use wmfs.Buffers.Access.Keys.{AccessKey, access_key_eq}
use wmfs.Buffers.Access.Model.{
  Manager, can_grant_access, is_disjoint, take_access, take_accesses, reserve_access,
}
use wmfs.Buffers.Access.Steps.{init, Reach, start, then_step, reserve}
use wmfs.Invocation.Access.{
  CallTensors, input_reads, input_writes, out_writes, reserve_invocation_access, is_used,
  is_written, Reach-isolated,
}

abbrev no_float : ℤ → Option ℕ
no_float n = none

abbrev first_dtype : Descriptor → Scalar → String
first_dtype input scalar = input.dtype

abbrev args : List Argument
args =
    tensor_argument (record { dtype = "float32"; requires_grad = false })
    ∷ value_argument (boolean false)
    ∷ []

abbrev call : BoundInvocation
call = record {
  operation = clip;
  tensor_inputs =
      record { tensor = record { dtype = "float32"; requires_grad = false }; writable = false }
      ∷ [];
  scalars = boolean false ∷ [];
  out = none;
}

call_bound : bind_invocation no_float true clip args [] none ≡ ok call
unfolding bind_invocation bind_scalars bind_all coerce_scalar coerce_kind validate_tensor_dtypes
    check_dtypes check_dtype Dict.get Dict.put same_text python_parameter_name
call_bound = refl

-- A number is no Boolean.
number_refused :
    bind_scalars no_float clip (value_argument (int64 (pos 1)) ∷ []) [] ≡ err wrong_scalar_type
unfolding bind_scalars bind_all coerce_scalar coerce_kind Dict.get same_text python_parameter_name
number_refused = refl

abbrev input_x : Descriptor
input_x = record { allocation_id = 3; shape = pos 5 ∷ pos 2 ∷ []; dtype = "float32" }

evaluate_outputs-bind_invocation_example :
    IsSafe (evaluate_outputs first_dtype clip (input_x ∷ []) (boolean false ∷ []))
evaluate_outputs-bind_invocation_example =
    evaluate_outputs-bind_invocation no_float first_dtype true clip args [] none call (input_x ∷ [])
      clip_valid call_bound refl

-- min(5, 8) is 5.
clip_evaluated :
    evaluate_outputs first_dtype clip (input_x ∷ []) (boolean false ∷ [])
    ≡ ok (some (pos 5 ∷ [], "float32") ∷ [])
unfolding evaluate_outputs evaluate_plan evaluate_known evaluate_shape evaluate_dimension
    evaluate_dtype item axis_of bound_dtype is_bad_shape same_text
clip_evaluated = refl

abbrev worker_planned : OperationMetadata
worker_planned = record clip {
  output_plans = plan_y ∷ record { name = 122 ∷ []; known = none } ∷ [];
}

abbrev spare : Descriptor
spare = record { allocation_id = 9; shape = pos 5 ∷ []; dtype = "float32" }

abbrev live_tensor : Descriptor → Option Tensor
live_tensor d = some (record { requires_grad = false; is_inference = false; managed = some d })

abbrev dynamic_call : BoundInvocation
dynamic_call = record call { operation = worker_planned }

abbrev planned_specs : OutputPlanned
planned_specs = record {
  specs = (pos 5 ∷ [], "float32") ∷ (pos 7 ∷ pos 1 ∷ [], "int64") ∷ [];
  reusable_outputs = none;
}

dynamic_planned :
    plan_outputs first_dtype false dynamic_call
      (input_x ∷ [])
      ((1, (pos 7 ∷ pos 1 ∷ [], "int64")) ∷ [])
    ≡ ok planned_specs
unfolding plan_outputs reuse_outputs complete_outputs complete_all evaluate_outputs evaluate_plan
    evaluate_known evaluate_shape evaluate_dimension evaluate_dtype item axis_of bound_dtype
    is_bad_shape same_text
dynamic_planned = refl

plan_outputs-IsPlanned_example :
    IsPlanned worker_planned (input_x ∷ []) ((1, (pos 7 ∷ pos 1 ∷ [], "int64")) ∷ []) planned_specs
plan_outputs-IsPlanned_example =
    plan_outputs-IsPlanned first_dtype false dynamic_call (input_x ∷ [])
      ((1, (pos 7 ∷ pos 1 ∷ [], "int64")) ∷ []) dynamic_planned

-- The worker may not plan an output that the metadata tells.
known_not_planned :
    plan_outputs first_dtype false call (input_x ∷ []) ((0, (pos 7 ∷ [], "int64")) ∷ [])
    ≡ err unknown_output
unfolding plan_outputs complete_outputs complete_all evaluate_outputs evaluate_plan evaluate_known
    evaluate_shape evaluate_dimension evaluate_dtype item axis_of bound_dtype is_bad_shape same_text
known_not_planned = refl

-- A tensor that is given for the output may not be the input.
input_refused :
    (bind_reusable_outputs false
        ((pos 5 ∷ [], "float32") ∷ [])
        (input_x ∷ [])
        (single (live_tensor (record spare { allocation_id = 3 })))
      ≡ err aliased)
    × (bind_reusable_outputs false
          ((pos 5 ∷ [], "float32") ∷ [])
          (input_x ∷ [])
          (single (live_tensor spare))
        ≡ ok (spare ∷ []))
unfolding bind_reusable_outputs out_tensors take_outputs take_output managed_of accept_managed
    same_shape same_int
input_refused = (refl, refl)

-- Two calls read one allocation, and the first is given another for its output.
abbrev key : ℕ → AccessKey
key n = record { buffer_id = n; generation = 1; allocation_id = n }

abbrev first_call : CallTensors
first_call = record {
  inputs = (some (key 5), false) ∷ (none, true) ∷ [];
  outs = some (key 7) ∷ none ∷ [];
}

abbrev second_call : CallTensors
second_call = record { inputs = (some (key 5), false) ∷ []; outs = [] }

abbrev one_runs : Manager
one_runs = record {
  states =
      (key 5, record { readers = 1; writer = false })
      ∷ (key 7, record { readers = 0; writer = true })
      ∷ [];
  waiters = [];
  granted = record { ident = 1; accesses = (key 5, false) ∷ (key 7, true) ∷ [] } ∷ [];
  closed = false;
}

abbrev two_run : Manager
two_run = record one_runs {
  states =
      (key 5, record { readers = 2; writer = false })
      ∷ (key 7, record { readers = 0; writer = true })
      ∷ [];
  granted =
      record { ident = 1; accesses = (key 5, false) ∷ (key 7, true) ∷ [] }
      ∷ record { ident = 2; accesses = (key 5, false) ∷ [] }
      ∷ [];
}

first_reserves : reserve_invocation_access init 1 first_call ≡ ok one_runs
unfolding reserve_invocation_access reserve_access input_reads input_writes out_writes is_disjoint
    can_grant_access take_accesses take_access Dict.get Dict.put Dict.set_default
first_reserves = refl

second_reserves : reserve_invocation_access one_runs 2 second_call ≡ ok two_run
unfolding reserve_invocation_access reserve_access input_reads input_writes out_writes is_disjoint
    can_grant_access take_accesses take_access Dict.get Dict.put Dict.set_default
second_reserves = refl

two_run-Reach : Reach init two_run
unfolding reserve_invocation_access
two_run-Reach =
    then_step (then_step start (reserve 1 _ _ first_reserves)) (reserve 2 _ _ second_reserves)

Reach-isolated_example :
    (is_used (key 5) first_call ≡ false)
    ⊎ ((is_used (key 5) second_call ≡ false)
        ⊎ ((is_written (key 5) first_call ≡ false) × (is_written (key 5) second_call ≡ false)))
unfolding input_reads input_writes out_writes Dict.put Dict.set_default
    wmfs.Buffers.Access.Model.requested wmfs.Buffers.Access.Model.collect_reads
    wmfs.Buffers.Access.Model.collect_writes
Reach-isolated_example =
    Reach-isolated [] [] [] (record { ident = 1; accesses = (key 5, false) ∷ (key 7, true) ∷ [] })
      (record { ident = 2; accesses = (key 5, false) ∷ [] }) first_call second_call two_run-Reach
      refl refl refl (key 5)

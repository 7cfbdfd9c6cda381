-- ===== src/Examples/Dispatch.antt =====
-- A dispatch that is allowed and one that is not.
use pan.Prelude.{◌≡◌, refl, ◌↔◌, arith, ok, err}
use pan.Pipeline.{PipelineError, Effected}
use pan.Table
use pan.Registry
use pan.Pipeline.Check.{check_type, has_type, check_required, minimal_schema_check}
use pan.Pipeline.Check.Laws.{Fits, minimal_schema_check_iff}
use pan.Pipeline.Stages.{dispatch}
use pan.Pipeline.Governance.{Untouched, Performed, dispatch-Performed, dispatch_refused-Untouched}
use pan.Examples.Data.{echo, echo_pipeline, echo_request, counting, strict, at_rest, no_args}

abbrev echoed : Effected
echoed = record { capability = "cap.echo"; result = no_args }

dispatch-Performed_example : Performed (echo_pipeline counting) echo_request 0 echoed
unfolding dispatch Registry.lookup Table.lookup minimal_schema_check check_type has_type
    check_required
dispatch-Performed_example =
    dispatch-Performed (echo_pipeline counting) echo_request at_rest
      (dispatch (echo_pipeline counting) echo_request at_rest).1 echoed refl

dispatch_refused-Untouched_example :
    Untouched
      (echo_pipeline strict)
      echo_request
      0
      (dispatch (echo_pipeline strict) echo_request at_rest).1.world
    × ((e : PipelineError) × ((dispatch (echo_pipeline strict) echo_request at_rest).0 ≡ err e))
dispatch_refused-Untouched_example =
    dispatch_refused-Untouched (echo_pipeline strict) echo_request at_rest
      λ w a. let h = a.allowed in ground arith

minimal_schema_check_iff_example :
    (minimal_schema_check echo.args_schema no_args ≡ ok tt) ↔ Fits echo.args_schema no_args
minimal_schema_check_iff_example = minimal_schema_check_iff echo.args_schema no_args

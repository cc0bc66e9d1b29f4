-- ===== src/Ext/Samples.antt =====
-- internal/ext: an extension with two requests.
use mixi.Base.{true, false, List, [], ◌∷◌, arith}
use mixi.Ext.Extension.{tool_result, new_extension}
use mixi.Ext.Extension.Replies.{
  Call, register_call, resolve_call, fail_pending_call, run, IsValid, count, ids_of, run-IsValid,
}
use mixi.Ext.Supervisor.{Host, Incarnation, line_too_long}

new-IsValid : IsValid new_extension
unfolding count ids_of
new-IsValid = record { once = λ j. omega arith; given = λ j h. omega arith }

abbrev calls : List Call
calls =
    register_call
    ∷ register_call
    ∷ resolve_call 1 (tool_result [])
    ∷ resolve_call 1 (tool_result [])
    ∷ fail_pending_call
    ∷ []

run-IsValid_example : IsValid (run calls new_extension)
run-IsValid_example = run-IsValid calls new_extension new-IsValid

abbrev host : Host
host = record { ext = new_extension; bound = false; act_buf = []; dispatched = []; notices = 0 }

abbrev flash : Incarnation
flash = record { spawned = true; adopted = true; lines = line_too_long ∷ []; stable = false }

abbrev absent : Incarnation
absent = record { spawned = false; adopted = false; lines = []; stable = false }

-- ===== src/Netflow/Silent.antt =====
-- An exporter whose version is not 5, beside one of version 5: the same table, and nothing on the socket.
use tzsp_server.Prelude.{◌≡◌, ◌≢◌, sym, ◌∙◌, List, Bytes}
use tzsp_server.Prelude.Int.{pos}
use tzsp_server.Netflow.{Exporter, lookup}
use tzsp_server.Netflow.Ops.{Op, run_ops, run_ops-Reach}
use tzsp_server.Netflow.Sequence.{Reach-sent_of_other_version}
use tzsp_server.Netflow.Refinement.{run_ops-refines}

-- An exporter that is configured for another version than 5 does all the work of one that is not and
-- shows nothing of it: after any packets and ticks its table holds under each key the flow that the
-- table of a version 5 exporter would hold there, counts, times and removals at the timeouts alike, and
-- it has sent no datagram.
pub run_ops-of_other_version :
    (ops : List Op) (e : Exporter) (k : Bytes)
    → e.version ≢ pos 5
    → ((run_ops ops e).sent ≡ e.sent)
      × (lookup k (run_ops ops e).flows
          ≡ lookup k (run_ops ops (record e { version = pos 5 })).flows)
run_ops-of_other_version ops e k other =
    let five = record e { version = pos 5 } in
    (
      Reach-sent_of_other_version e (run_ops ops e) other (run_ops-Reach ops e),
      run_ops-refines ops e k ∙ sym (run_ops-refines ops five k),
    )

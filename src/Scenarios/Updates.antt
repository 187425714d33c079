-- ===== src/Scenarios/Updates.antt =====
-- A server that answers each status update and stores none.
use infrakube_multicluster.Prelude.{◌≡◌, refl, ap, none}
use infrakube_multicluster.Exec.{returns}
use infrakube_multicluster.Task.{task_lists_are_equal}
use infrakube_multicluster.Resource.Status.{TerraformStatus, phase_completed, is_equal}
use infrakube_multicluster.Controller.Api.{Api, found}
use infrakube_multicluster.Controller.Updates.{named, confirms, update_status_with_retry}
use infrakube_multicluster.Controller.Unconfirmed.{Stale, update_status-unconfirmed}
use infrakube_multicluster.Scenarios.Server.{World, read, server, planning, failing}

abbrev stubborn : Api World
stubborn = record server { update_status = λ tf w. (found tf, w) }

abbrev completed : TerraformStatus
completed = record planning.status { phase = phase_completed }

abbrev IsIdle : World → Type 0
IsIdle w = w ≡ failing 0

stubborn-Stale : Stale stubborn IsIdle (named planning) completed
unfolding read confirms task_lists_are_equal is_equal
stubborn-Stale = record {
  writes = λ tf w p. p;
  takes = λ tf w p. (tf, refl);
  reads = λ w p. ap (λ x. (read x).1) p;
  shows = λ w p. (planning, ap (λ x. (read x).0) p, refl);
}

-- The caller passes the status of its own resource.
update_status-unconfirmed_example :
    (update_status_with_retry stubborn (record planning { status = completed }) none (failing 0)).0
    ≡ returns (none, record planning { status = completed })
update_status-unconfirmed_example =
    update_status-unconfirmed stubborn IsIdle (record planning { status = completed })
      (record planning { status = completed }) none (failing 0) refl refl stubborn-Stale

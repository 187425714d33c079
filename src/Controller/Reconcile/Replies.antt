-- ===== src/Controller/Reconcile/Replies.antt =====
-- What a reconciliation returns: the result and the error.
use infrakube_multicluster.Prelude.{ℕ, Bool, true, false, Option, none, some}
use infrakube_multicluster.Resource.{Terraform}
use infrakube_multicluster.Controller.Api.{Error}

pub record Reply : Type 0 where
  pub requeue : Bool
  pub requeue_after : ℕ
  pub error : Option Error

-- reconcile.Result{}, nil
abbrev pub done : Reply
done = record { requeue = false; requeue_after = 0; error = none }

-- reconcile.Result{Requeue: true}, nil
abbrev pub again : Reply
again = record { requeue = true; requeue_after = 0; error = none }

-- reconcile.Result{RequeueAfter: 30 * time.Second}, nil
abbrev pub later : Reply
later = record { requeue = false; requeue_after = 30; error = none }

-- reconcile.Result{}, err
abbrev pub fails : Error → Reply
fails e = record { requeue = false; requeue_after = 0; error = some e }

abbrev pub reply_of : Option Error → Reply
reply_of none = done
reply_of (some e) = fails e

-- The reply of a part, with the resource as the part leaves it.
abbrev pub Outcome : Type 0
Outcome = Reply × Terraform

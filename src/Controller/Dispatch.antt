-- ===== src/Controller/Dispatch.antt =====
-- pkg/controllers/tf_controller.go: Reconcile, which hands a request to the reconciler of its cluster.
use infrakube_multicluster.Prelude.{String, Option, none, some}
use infrakube_multicluster.Exec.{Exec, pure, call, ◌>>=◌}
use infrakube_multicluster.Controller.Api.{Error}
use infrakube_multicluster.Controller.Reconcile.Replies.{Reply, fails}

-- What a function that looks for a cluster's client or recorder returns.
pub data Lookup (A : Type 0) : Type 0 where
  known : A → Lookup A
  unknown : Error → Lookup A

-- The fields of ReconcileTf that are read here: a function that is nil is `none`.
pub record Clients (W Client Recorder : Type 0) : Type 0 where
  pub client : Client
  pub local_client : Option Client
  pub recorder : Recorder
  pub client_for_cluster : Option (String → W → Lookup Client × W)
  pub recorder_for_cluster : Option (String → W → Lookup Recorder × W)

module _ {W Client Recorder : Type 0} where
  unfoldable pub client_for_cluster : Clients W Client Recorder → String → Exec W (Lookup Client)
  client_for_cluster r cluster_name = elim r.client_for_cluster [
    | some find ↦ call (find cluster_name)
    | none ↦ pure (known r.client)
  ]

  unfoldable pub recorder_for_cluster :
      Clients W Client Recorder → String → Exec W (Lookup Recorder)
  recorder_for_cluster r cluster_name = elim r.recorder_for_cluster [
    | some find ↦ call (find cluster_name)
    | none ↦ pure (known r.recorder)
  ]

  unfoldable pub control_plane_client : Clients W Client Recorder → Client
  control_plane_client r = elim r.local_client [ some client ↦ client | none ↦ r.client ]

  abbrev pub with_recorder :
      (Clients W Client Recorder → Exec W Reply)
      → Clients W Client Recorder
      → Lookup Recorder
      → Exec W Reply
  with_recorder round r (unknown e) = pure (fails e)
  with_recorder round r (known recorder) = round (record r { recorder = recorder })

  abbrev pub with_client :
      (Clients W Client Recorder → Exec W Reply)
      → (cluster_name : String) → Clients W Client Recorder
      → Lookup Client
      → Exec W Reply
  with_client round cluster_name r (unknown e) = pure (fails e)
  with_client round cluster_name r (known client) =
      let cluster_reconciler = record r { client = client } in
      recorder_for_cluster r cluster_name >>= with_recorder round cluster_reconciler

  -- Reconcile: `round` is `reconcile` of the copy that has the cluster's client and recorder.
  unfoldable pub dispatch :
      (Clients W Client Recorder → Exec W Reply)
      → Clients W Client Recorder
      → (cluster_name : String) → Exec W Reply
  dispatch round r cluster_name =
      client_for_cluster r cluster_name >>= with_client round cluster_name r

-- ===== src/Scenarios/Environments.antt =====
-- An environment of the controller.
use infrakube_multicluster.Prelude.{
  [], ◌∷◌, ◌≡◌, refl, split, onto_first, has_prefix, after_prefix, trim_prefix, insert,
}
use infrakube_multicluster.Command.{global_env}

sorted_variables :
    global_env
      (λ key. "1")
      ("PATH=/bin" ∷ "INFRAKUBE_VAR_A=1" ∷ "INFRAKUBE_SECRET_B=1" ∷ [])
      (record { configmap_data = []; secret_data = [] })
    ≡ record { configmap_data = ("A", "1") ∷ []; secret_data = ("B", "1") ∷ [] }
unfolding global_env split onto_first has_prefix after_prefix trim_prefix insert
sorted_variables = refl

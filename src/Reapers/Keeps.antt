-- ===== src/Reapers/Keeps.antt =====
-- pkg/controllers/tf_controller.go, reapPlugins: what it keeps of the world.
use infrakube_multicluster.Prelude.{ℕ, zero, suc, ◌+◌, String, Option, none, List, [], ◌∷◌, ltb}
use infrakube_multicluster.Exec.{Exec, call, perform}
use infrakube_multicluster.Exec.Ensures.{
  Ensures, Any, Ensures-pure, Ensures-bind, Ensures-if, keeps_call, keeps_perform,
}
use infrakube_multicluster.Kube.{NamespacedName, PodStatus, not_found, already_exists, other_error}
use infrakube_multicluster.Resource.{Terraform}
use infrakube_multicluster.Controller.Api.{Api, Answer, found, failed}
use infrakube_multicluster.Controller.Updates.{get_tf_resource, named, after_read}
use infrakube_multicluster.Reapers.{
  Reaped, pods, jobs, Reaping, ReapEnd, reap_plugins, reap_plugins_read, after_plugin_list,
}

module _ {W : Type 0} (a : Api W) (k : Reaping W) (P : W → Type 0)
    (reads : (name : NamespacedName) (w : W) → P w → P (a.get_tf name w).1)
    (deletes : (kind : Reaped) (namespace : String) (labels fields : Option String) (w : W)
      → P w
      → P (k.delete_all_of kind namespace labels fields w).1)
    (lists : (namespace : String) (labels : Option String) (w : W)
      → P w
      → P (k.list_pods_with namespace labels w).1)
    (sleeps : (w : W) → P w → P (k.sleep w)) where
  after_read-keeps :
      (again : Exec W (Answer Terraform)) (answer : Answer Terraform)
      → Ensures P Any again
      → Ensures P Any (after_read a again answer)
  after_read-keeps again (found tf) h = Ensures-pure (found tf) tt
  after_read-keeps again (failed not_found) h = Ensures-pure (failed not_found) tt
  after_read-keeps again (failed already_exists) h = h
  after_read-keeps again (failed other_error) h = h

  get_tf_resource-keeps :
      (name : NamespacedName) (later : ℕ) → Ensures P Any (get_tf_resource a name later)
  unfolding get_tf_resource
  get_tf_resource-keeps name zero = keeps_call _ (reads name)
  get_tf_resource-keeps name (suc later) =
      Ensures-bind (call (a.get_tf name)) _ (keeps_call _ (reads name))
        (λ answer q. after_read-keeps _ answer (get_tf_resource-keeps name later))

  module _ (label_prefix : String) (md5_hex : String → String) where
    after_list-keeps :
        (again : Exec W ReapEnd) (answer : Answer (List PodStatus))
        → Ensures P Any again
        → Ensures P Any (after_plugin_list a k label_prefix md5_hex again answer)
    after_list-keeps again (failed e) h = Ensures-pure _ tt
    after_list-keeps again (found []) h = Ensures-pure _ tt
    after_list-keeps again (found (pod ∷ left)) h =
        Ensures-bind {Q = Any} (perform k.sleep) _ (keeps_perform _ sleeps) (λ u q. h)

    read-keeps :
        (again : Terraform → Exec W ReapEnd) (answer : Answer Terraform)
        → ((tf : Terraform) → Ensures P Any (again tf))
        → Ensures P Any (reap_plugins_read a k label_prefix md5_hex again answer)
    read-keeps again (failed e) h = Ensures-pure _ tt
    read-keeps again (found tf) h =
        Ensures-bind (call (k.delete_all_of jobs tf.namespace _ none)) _
          (keeps_call _ (deletes jobs tf.namespace _ none))
          (λ r q.
            Ensures-bind (call (k.delete_all_of pods tf.namespace _ none)) _
              (keeps_call _ (deletes pods tf.namespace _ none))
              (λ r q.
                Ensures-bind (call (k.list_pods_with tf.namespace _)) _
                  (keeps_call _ (lists tf.namespace _))
                  (λ answer q. after_list-keeps (again tf) answer (h tf))))

    -- What the reads, the deletions, the lists and the waits keep, the loop keeps.
    pub reap_plugins-keeps :
        (fuel : ℕ) (tf : Terraform) (attempt : ℕ)
        → Ensures P Any (reap_plugins a k label_prefix md5_hex fuel tf attempt)
    unfolding reap_plugins
    reap_plugins-keeps zero tf attempt = Ensures-pure _ tt
    reap_plugins-keeps (suc fuel) tf attempt =
        Ensures-if (ltb 20 attempt) _ _ (λ e. Ensures-pure _ tt)
          (λ e.
            Ensures-bind (get_tf_resource a (named tf) 2) _ (get_tf_resource-keeps (named tf) 2)
              (λ answer q.
                read-keeps _ answer (λ latest. reap_plugins-keeps fuel latest (attempt + 1))))

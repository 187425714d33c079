-- ===== src/Scenarios/Reaping.antt =====
-- A namespace in which one pod of an old generation never goes.
use infrakube_multicluster.Prelude.{ℕ, zero, suc, none, some, [], ◌∷◌, ◌≡◌, ◌≢◌, ◌⊎◌, refl, arith}
use infrakube_multicluster.Exec.{returns}
use infrakube_multicluster.Kube.{PodStatus}
use infrakube_multicluster.Controller.Api.{found}
use infrakube_multicluster.Reapers.{
  Reaped, pods, jobs, config_maps, secrets, roles, role_bindings, service_accounts, Reaping,
  ReapEnd, gave_up, stopped, out_of_fuel, background_reap_old_generation_pods,
}
use infrakube_multicluster.Reapers.Ends.{Lasts, reap_ends, reap_waits}
use infrakube_multicluster.Scenarios.Server.{
  World, server, config, planning, failing, read, read_at,
}

abbrev stuck : PodStatus
stuck = record { name = "old"; uid = "u"; phase = "Running"; creation_timestamp = none }

-- Deleting anything but pods counts as a failure of the world.
abbrev after_deletion : Reaped → World → World
after_deletion pods w = w
after_deletion jobs w = record w { failures = 100 }
after_deletion config_maps w = record w { failures = 100 }
after_deletion secrets w = record w { failures = 100 }
after_deletion roles w = record w { failures = 100 }
after_deletion role_bindings w = record w { failures = 100 }
after_deletion service_accounts w = record w { failures = 100 }

abbrev reaping : Reaping World
reaping = record {
  parse_labels = λ s. some s;
  parse_fields = λ s. some s;
  delete_all_of = λ kind namespace labels fields w. (none, after_deletion kind w);
  list_pods_with = λ namespace labels w. (found (stuck ∷ []), w);
  sleep = λ w. w;
}

stuck-Lasts : Lasts server reaping (λ w. w.failures ≡ 0) (λ r. r ≢ found [])
unfolding read
stuck-Lasts = record {
  read = λ name w p. still w.failures w p refl;
  pods_deleted = λ namespace labels fields w p. p;
  listed = λ namespace labels w p. p;
  pods_left = λ namespace labels w p e. ground arith;
  slept = λ w p. p;
}
  where
    still : (n : ℕ) (w : World) → w.failures ≡ 0 → w.failures ≡ n → (read_at n w).1.failures ≡ 0
    still zero w p q = p
    still (suc n) w p q = absurd (omega (arith, p, q))

reap_ends_example :
    (e : ReapEnd) × ((background_reap_old_generation_pods server reaping "" config.md5_hex 22
        planning 0
        (failing 0)).0
      ≡ returns e)
    × (e ≢ out_of_fuel)
reap_ends_example = reap_ends server reaping "" config.md5_hex planning (failing 0)

reap_waits_example :
    ((e : ReapEnd) × ((background_reap_old_generation_pods server reaping "" config.md5_hex 22
          planning 0
          (failing 0)).0
        ≡ returns e)
      × ((e ≡ gave_up) ⊎ (e ≡ stopped)))
    × ((background_reap_old_generation_pods server reaping "" config.md5_hex 22 planning 0
          (failing 0)).1.failures
        ≡ 0)
reap_waits_example =
    reap_waits server reaping "" config.md5_hex (λ w. w.failures ≡ 0) stuck-Lasts planning
      (failing 0) refl
